-- ===== src/Registry/Transfer/Guards.antt =====
-- The guards of a soul transfer (contracts/registry/src/lib.rs).
use i_am_human.Base.{
  ℕ, ◌<◌, ◌≡◌, refl, true, false, none, some, Option, unwrap_or, arith, Ensures, Ensures-bind,
  Ensures-gets, Ensures-require, Ensures-require_last, Ensures-modify, Ensures-pure, Ensures-last,
  Ensures-assoc, Ensures-pure_bind, Ensures-anyway, subst,
}
use i_am_human.Near.{AccountId, Env}
use i_am_human.Near.Keys.{ℕ_key}
use i_am_human.Registry.{Contract, AccountFlag, blacklisted, verified, gov_ban}
use i_am_human.Registry.Keys.{token_id}
use i_am_human.Registry.Rules.{Ensures-assert_not_banned}
use i_am_human.Registry.Transfer.{
  transfer_continuation, start_transfer_with_continuation, transfer_flag, copy_flag, flag_eq,
  soul_transfer_up_to,
}

-- Two flags agree, unless both are there and differ.
abbrev pub Agree : Option AccountFlag → Option AccountFlag → Type 0
Agree none g = Unit
Agree (some f) none = Unit
Agree (some f) (some g) = f ≡ g

flag_eq-eq : (f g : AccountFlag) → flag_eq f g ≡ true → f ≡ g
flag_eq-eq blacklisted blacklisted h = refl
flag_eq-eq verified verified h = refl
flag_eq-eq gov_ban gov_ban h = refl
flag_eq-eq _ _ h = absurd (ground (arith, h))

-- What a transfer that starts requires of the two accounts, by itself.
start-free :
    (o r : AccountId) (s : Contract)
    → s.ongoing_soul_tx o ≡ none
    → Ensures
        (λ c t.
          (c ≡ (false, token_id 0 0))
          × (s.banlist o ≡ false)
          × (s.banlist r ≡ false)
          × (t.flagged ≡ s.flagged))
        (transfer_continuation o r true s)
unfolding transfer_continuation start_transfer_with_continuation
start-free o r s fresh = Ensures-gets _ _ _ _ (
    rw fresh (
      Ensures-assoc _ _ _ _ _ (
        Ensures-assert_not_banned _ _ _ _ λ free. Ensures-assoc _ _ _ _ _ (
          Ensures-assoc _ _ _ _ _ (
            Ensures-gets _ _ _ _ (
              Ensures-assoc _ _ _ _ _ (
                Ensures-modify _ _ _ _ (
                  Ensures-assoc _ _ _ _ _ (
                    Ensures-require _ _ _ _ _ λ own. Ensures-modify _ _ _ _ (
                      Ensures-pure_bind _ _ _ _ (
                        Ensures-pure _ _ _ _
                          (refl, ground (arith, own), ground (arith, free), refl))))))))))))

transfer_flag-Agree :
    (o r : AccountId) (s : Contract)
    → Ensures (λ _ _. Agree (s.flagged o) (s.flagged r)) (transfer_flag o r s)
unfolding transfer_flag
transfer_flag-Agree o r s =
    Ensures-gets _ _ _ _ (Ensures-gets _ _ _ _ (go (s.flagged o) (s.flagged r)))
  where
    go : (f g : Option AccountFlag) → Ensures (λ _ _. Agree f g) (copy_flag r f g s)
    go none g = Ensures-pure _ _ _ _ tt
    go (some f) none = Ensures-last _ _ _ _ tt
    go (some f) (some g) = Ensures-require_last _ _ _ _ λ h. flag_eq-eq f g h

-- If a soul transfer that no earlier call has begun succeeds, the owner's lock is in the past,
-- neither account is banned, and their flags agree.
pub soul_transfer_up_to-guards :
    (env : Env) (r : AccountId) (limit : ℕ) (s : Contract)
    → s.ongoing_soul_tx env.predecessor ≡ none
    → Ensures
        (λ _ _.
          (unwrap_or 0 (s.transfer_locks env.predecessor) < env.now)
          × (s.banlist env.predecessor ≡ false)
          × (s.banlist r ≡ false)
          × Agree (s.flagged env.predecessor) (s.flagged r))
        (soul_transfer_up_to env r limit s)
unfolding soul_transfer_up_to
soul_transfer_up_to-guards env r limit s fresh = Ensures-gets _ _ _ _ (
    Ensures-require _ _ _ _ _ λ lock.
      Ensures-bind _ _ _ _ _ (start-free env.predecessor r s fresh) λ c t p. rw p.0 (
        Ensures-bind _ _ _ _ _ (transfer_flag-Agree env.predecessor r t) λ _ u a.
          Ensures-anyway _ _
            (ground (arith, lock), p.1, p.2, subst (λ f. Agree (f env.predecessor) (f r)) p.3 a)))
