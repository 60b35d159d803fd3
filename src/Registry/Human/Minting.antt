-- ===== src/Registry/Human/Minting.antt =====
-- Minting for humans: `sbt_mint_iah` (contracts/registry/src/lib.rs).
use i_am_human.Base.{
  ℕ, ◌+◌, ◌<◌, ◌≡◌, ◌≢◌, ◌⊎◌, refl, true, false, not, some, List, [], ◌∷◌, is_empty, unwrap_or,
  arith, inl, inr, Ensures, Ensures-bind, Ensures-require, Ensures-pure, Ensures-mono,
}
use i_am_human.Near.{AccountId, Env}
use i_am_human.Near.Words.{u64_mod}
use i_am_human.Sbt.{TokenId, Sbts}
use i_am_human.Registry.{Contract}
use i_am_human.Registry.Keys.{IssuerId}
use i_am_human.Registry.Invariant.{IsValid}
use i_am_human.Registry.Human.{is_blacklisted, assert_humans, sbt_mint_iah}
use i_am_human.Registry.Human.Sound.{AllProve, is_human-Proves}
use i_am_human.Registry.Mint.{TokenSpec}
use i_am_human.Registry.Mint.Steps.{total_tokens}
use i_am_human.Registry.Mint.Validity.{mint_spec-IsValid}

-- The account is not barred, and has a current token of every required class.
pub record Human (env : Env) (s : Contract) (o : AccountId) : Type 0 where
  pub free : s.banlist o ≡ false
  pub unflagged : is_blacklisted (s.flagged o) ≡ false
  pub ids : List TokenId
  pub proof : AllProve env o s.iah_sbts.0 s s.iah_sbts.1 ids

abbrev pub AllHuman : Env → Contract → TokenSpec → Type 0
AllHuman env s [] = Unit
AllHuman env s ((o, _) ∷ spec) = Human env s o × AllHuman env s spec

accepted-Human :
    (env : Env) (s : Contract) (o : AccountId) (proof : Sbts)
    → not (is_empty proof) ≡ true
    → (proof ≡ [])
      ⊎ ((ids : List TokenId) × (proof ≡ (s.iah_sbts.0, ids) ∷ [])
          × (s.banlist o ≡ false)
          × (is_blacklisted (s.flagged o) ≡ false)
          × AllProve env o s.iah_sbts.0 s s.iah_sbts.1 ids)
    → Human env s o
accepted-Human env s o proof h (inl e) = absurd (ground (arith, h, e))
accepted-Human env s o proof h (inr (ids, e, f, g, p)) = record {
  free = f;
  unflagged = g;
  ids = ids;
  proof = p;
}

assert_humans-AllHuman :
    (env : Env) (spec : TokenSpec) (s : Contract)
    → ((i : IssuerId) → s.sbt_issuers s.iah_sbts.0 ≡ some i → i ≢ 0)
    → IsValid s
    → Ensures (λ _ t. AllHuman env s spec × (t ≡ s)) (assert_humans env spec s)
unfolding assert_humans
assert_humans-AllHuman env [] s ne v = Ensures-pure _ _ _ _ (tt, refl)
assert_humans-AllHuman env ((o, m) ∷ spec) s ne v =
    Ensures-bind _ _ _ _ _ (is_human-Proves env o s ne v) λ proof t g.
      Ensures-require _ _ _ _ _ λ h. rw g.0 (
        Ensures-mono _ _ _ (λ _ u k. ((accepted-Human env s o proof h g.1, k.0), k.1))
          (assert_humans-AllHuman env spec s ne v))

-- In a valid registry whose IAH issuer does not have the number 0, with room for the new numbers
-- in `u64`, a successful `sbt_mint_iah` mints for accounts alone that are not barred and that have
-- a current token of every required class, and leaves a valid registry.
pub sbt_mint_iah-AllHuman :
    (usage : Contract → ℕ) (env : Env) (spec : TokenSpec) (s : Contract)
    → ((i : IssuerId) → s.sbt_issuers s.iah_sbts.0 ≡ some i → i ≢ 0)
    → IsValid s
    → ((i : IssuerId) → unwrap_or 0 (s.next_token_ids i) + total_tokens spec + 1 < u64_mod)
    → Ensures (λ _ t. AllHuman env s spec × IsValid t) (sbt_mint_iah usage env spec s)
unfolding sbt_mint_iah
sbt_mint_iah-AllHuman usage env spec s ne v room =
    Ensures-bind _ _ _ _ _ (assert_humans-AllHuman env spec s ne v) λ _ t g. rw g.1 (
      Ensures-mono _ _ _ (λ _ u w. (g.0, w))
        (mint_spec-IsValid usage env env.predecessor spec s v room))
