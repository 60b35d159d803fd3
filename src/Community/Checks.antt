-- ===== src/Community/Checks.antt =====
-- The callbacks of `sbt_renew` and `sbt_revoke` against what they check without their caches
-- (contracts/community-sbt/src/lib.rs).
use i_am_human.Base.{
  ℕ, ◌≡◌, refl, ap, Bool, true, false, ◌&&◌, List, [], ◌∷◌, Option, none, some, contains, leb,
  arith, Option-cases, inl, inr, SucceedsIf, SucceedsIf-bind, SucceedsIf-expect-some,
  SucceedsIf-expect-none, SucceedsIf-gets, SucceedsIf-require, SucceedsIf-modify, SucceedsIf-test,
  SucceedsIf-only, SucceedsIf-pure, SucceedsIf-last, SucceedsIf-require_last, SucceedsIf-run,
}
use i_am_human.Near.{AccountId, Env}
use i_am_human.Near.Words.{add_u64}
use i_am_human.Near.Keys.{ℕ_key}
use i_am_human.Near.Lookup.{LookupMap, empty, insert}
use i_am_human.Sbt.{TokenId, ClassId}
use i_am_human.Community.Renew.{
  assert_minter, assert_ttl, checked_ttl, check_renewals, check_minter, check_revocations,
  renew_callback, revoke_callback,
}

module _ (class_minter : ClassId → Option (List AccountId × ℕ)) (caller : AccountId) where
  -- The caller is a minter of the class.
  abbrev pub is_minter : ClassId → Bool
  is_minter c = elim (class_minter c) [ none ↦ false | some info ↦ contains caller info.0 ]

  abbrev pub max_ttl_of : ClassId → ℕ
  max_ttl_of c = elim (class_minter c) [ none ↦ 0 | some info ↦ info.1 ]

  -- Every token has a class that the caller mints, with at least this time to live.
  abbrev pub all_renewable : ℕ → List (Option ClassId) → Bool
  all_renewable ttl [] = true
  all_renewable ttl (none ∷ ts) = false
  all_renewable ttl (some c ∷ ts) = is_minter c && (leb ttl (max_ttl_of c) && all_renewable ttl ts)

  abbrev pub all_minted : List (Option ClassId) → Bool
  all_minted [] = true
  all_minted (none ∷ ts) = false
  all_minted (some c ∷ ts) = is_minter c && all_minted ts

  -- The minters of a class.
  abbrev pub minters_of : ClassId → Option (List AccountId)
  minters_of c = elim (class_minter c) [ none ↦ none | some info ↦ some info.0 ]

-- The cache has what the contract answers.
module _ {V : Type 0} (answers : ClassId → Option V) where
  abbrev pub IsCache : LookupMap ClassId V → Type 0
  IsCache cache = (c : ClassId) (v : V) → cache c ≡ some v → answers c ≡ some v

  IsCache-insert :
      (c : ClassId) (v : V) (cache : LookupMap ClassId V)
      → IsCache cache
      → answers c ≡ some v
      → IsCache (insert c v cache)
  IsCache-insert c v cache h e d w q = ground (arith, h d w, e, q)

  IsCache-empty : IsCache empty
  IsCache-empty c v e = absurd (ground (arith, e))

module _ (class_minter : ClassId → Option (List AccountId × ℕ)) (caller : AccountId) where
  checked_ttl-ok :
      (c : ClassId) (o : Option (List AccountId × ℕ)) (l : LookupMap ClassId (List AccountId × ℕ))
      → IsCache class_minter l
      → l c ≡ o
      → SucceedsIf
          (is_minter class_minter caller c)
          (λ ttl t. (ttl ≡ max_ttl_of class_minter caller c) × IsCache class_minter t)
          (checked_ttl class_minter caller c o l)
  unfolding checked_ttl assert_minter
  checked_ttl-ok c (some info) l h e =
      rw (is_minter, max_ttl_of, h c info e)
        (SucceedsIf-only _ _ _
          (SucceedsIf-require _ _ _ _ _ _ λ _. SucceedsIf-pure _ _ _ _ (refl, h)))
  checked_ttl-ok c none l h e = elim (Option-cases (class_minter c)) [
    | inl q ↦ rw (is_minter, q) (SucceedsIf-expect-none _ _ _ _)
    | inr (info, q) ↦
        rw (is_minter, max_ttl_of, q)
          (SucceedsIf-expect-some _ _ _ _ _ _ (
            SucceedsIf-only _ _ _ (
              SucceedsIf-require _ _ _ _ _ _ λ _.
                SucceedsIf-modify _ _ _ _ _
                  (SucceedsIf-pure _ _ _ _ (refl, IsCache-insert class_minter c info l h q)))))
  ]

  check_renewals-ok :
      (ttl : ℕ) (ts : List (Option ClassId)) (l : LookupMap ClassId (List AccountId × ℕ))
      → IsCache class_minter l
      → SucceedsIf
          (all_renewable class_minter caller ttl ts)
          (λ _ _. Unit)
          (check_renewals class_minter caller ttl ts l)
  unfolding check_renewals assert_ttl
  check_renewals-ok ttl [] l h = SucceedsIf-pure _ _ _ _ tt
  check_renewals-ok ttl (none ∷ ts) l h = SucceedsIf-expect-none _ _ _ _
  check_renewals-ok ttl (some c ∷ ts) l h = SucceedsIf-expect-some _ _ _ _ _ _ (
      SucceedsIf-gets _ _ _ _ _ (
        SucceedsIf-bind _ _ _ _ _ _ _ (checked_ttl-ok c (l c) l h refl) λ max_ttl t k.
          SucceedsIf-test _ _ _ _
            (ap (λ n. leb ttl n && all_renewable class_minter caller ttl ts) k.0)
            (SucceedsIf-require _ _ _ _ _ _ λ _. check_renewals-ok ttl ts t k.1)))

  check_minter-ok :
      (c : ClassId) (o : Option (List AccountId)) (l : LookupMap ClassId (List AccountId))
      → IsCache (minters_of class_minter caller) l
      → l c ≡ o
      → SucceedsIf
          (is_minter class_minter caller c)
          (λ _ t. IsCache (minters_of class_minter caller) t)
          (check_minter class_minter caller c o l)
  unfolding check_minter assert_minter
  check_minter-ok c (some minters) l h e =
      SucceedsIf-test _ (contains caller minters) _ _ (ground (arith, h c minters e))
        (SucceedsIf-require_last _ _ _ _ λ _. h)
  check_minter-ok c none l h e = elim (Option-cases (class_minter c)) [
    | inl q ↦ rw (is_minter, q) (SucceedsIf-expect-none _ _ _ _)
    | inr (info, q) ↦
        rw (is_minter, q)
          (SucceedsIf-expect-some _ _ _ _ _ _ (
            SucceedsIf-only _ _ _ (
              SucceedsIf-require _ _ _ _ _ _ λ _. SucceedsIf-last _ _ _ _ (
                IsCache-insert (minters_of class_minter caller) c info.0 l h
                  (rw (minters_of, q) refl)))))
  ]

  check_revocations-ok :
      (ts : List (Option ClassId)) (l : LookupMap ClassId (List AccountId))
      → IsCache (minters_of class_minter caller) l
      → SucceedsIf
          (all_minted class_minter caller ts)
          (λ _ _. Unit)
          (check_revocations class_minter caller ts l)
  unfolding check_revocations
  check_revocations-ok [] l h = SucceedsIf-pure _ _ _ _ tt
  check_revocations-ok (none ∷ ts) l h = SucceedsIf-expect-none _ _ _ _
  check_revocations-ok (some c ∷ ts) l h = SucceedsIf-expect-some _ _ _ _ _ _ (
      SucceedsIf-gets _ _ _ _ _ (
        SucceedsIf-bind _ _ _ _ _ _ _ (check_minter-ok c (l c) l h refl)
          λ _ t k. check_revocations-ok ts t k))

-- The test on the registry's answer, which may have failed.
abbrev pub answered : (List (Option ClassId) → Bool) → Option (List (Option ClassId)) → Bool
answered test none = false
answered test (some ts) = test ts

module _ {S : Type 0} (class_minter : ClassId → Option (List AccountId × ℕ)) where
  -- The callback of `sbt_renew` succeeds exactly if the registry answered that every token has a
  -- class which the caller mints, with at least this time to live.
  pub renew_callback-ok :
      (env : Env) (caller : AccountId) (tokens : List TokenId) (ttl : ℕ)
      (answer : Option (List (Option ClassId))) (s : S)
      → SucceedsIf
          (answered (all_renewable class_minter caller ttl) answer)
          (λ p t. (p ≡ record { tokens = tokens; expires_at = add_u64 env.now ttl }) × (t ≡ s))
          (renew_callback class_minter env caller tokens ttl answer s)
  unfolding renew_callback
  renew_callback-ok env caller tokens ttl none s = SucceedsIf-expect-none _ _ _ _
  renew_callback-ok env caller tokens ttl (some ts) s = SucceedsIf-expect-some _ _ _ _ _ _ (
      SucceedsIf-only _ _ _ (
        SucceedsIf-run _ _ _ _ _ _ _
          (check_renewals-ok class_minter caller ttl ts empty (IsCache-empty class_minter))
          λ _ _ _. SucceedsIf-pure _ _ _ _ (refl, refl)))

  pub revoke_callback-ok :
      (caller : AccountId) (tokens : List TokenId) (burn : Bool)
      (answer : Option (List (Option ClassId))) (s : S)
      → SucceedsIf
          (answered (all_minted class_minter caller) answer)
          (λ p t. (p ≡ record { tokens = tokens; burn = burn }) × (t ≡ s))
          (revoke_callback class_minter caller tokens burn answer s)
  unfolding revoke_callback
  revoke_callback-ok caller tokens burn none s = SucceedsIf-expect-none _ _ _ _
  revoke_callback-ok caller tokens burn (some ts) s = SucceedsIf-expect-some _ _ _ _ _ _ (
      SucceedsIf-only _ _ _ (
        SucceedsIf-run _ _ _ _ _ _ _
          (check_revocations-ok class_minter caller ts empty
            (IsCache-empty (minters_of class_minter caller)))
          λ _ _ _. SucceedsIf-pure _ _ _ _ (refl, refl)))
