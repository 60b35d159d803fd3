-- ===== src/Registry/Human/Barred.antt =====
-- Banned and blacklisted accounts, and `_is_human` (contracts/registry/src/lib.rs).
use i_am_human.Base.{
  ℕ, ◌≡◌, ◌≢◌, refl, true, ◌||◌, none, [], arith, ok, ◌>>=◌, Ensures, Ensures-mono,
}
use i_am_human.Near.{AccountId, Env}
use i_am_human.Registry.{Contract}
use i_am_human.Registry.Invariant.{IsValid}
use i_am_human.Registry.Human.{is_blacklisted, is_human}
use i_am_human.Registry.Transfer.{soul_transfer_up_to}
use i_am_human.Registry.Transfer.Validity.{Issued, soul_transfer_up_to-Transferred}

-- A banned or blacklisted account gets the empty proof.
is_human-empty :
    (env : Env) (a : AccountId) (s : Contract)
    → (is_blacklisted (s.flagged a) || s.banlist a) ≡ true
    → is_human env a s ≡ ok ([], s)
unfolding is_human ◌>>=◌
is_human-empty env a s h = rw h refl

-- In a valid registry, where the owner has no balance of an issuer 0, after a successful soul
-- transfer to another account that no earlier call has begun, completed or not, the owner gets the
-- empty proof.
pub soul_transfer_up_to-is_human :
    (env : Env) (r : AccountId) (limit : ℕ) (s : Contract)
    → env.predecessor ≢ r
    → IsValid s
    → Issued env.predecessor s
    → s.ongoing_soul_tx env.predecessor ≡ none
    → Ensures
        (λ _ t. (later : Env) → is_human later env.predecessor t ≡ ok ([], t))
        (soul_transfer_up_to env r limit s)
soul_transfer_up_to-is_human env r limit s ne v issued fresh =
    Ensures-mono _ _ _ (λ _ t p later. is_human-empty later env.predecessor t (ground (arith, p.1)))
      (soul_transfer_up_to-Transferred env r limit s ne v issued fresh)
