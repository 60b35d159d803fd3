-- ===== src/Community/Loops.antt =====
-- The loops of `sbt_mint_many` and of the callbacks against what they compute without their caches
-- (contracts/community-sbt/src/lib.rs).
use i_am_human.Base.{
  ℕ, suc, ◌+◌, ◌≡◌, refl, sym, ap, ◌∙◌, Bool, true, false, ◌&&◌, ◌||◌, List, [], ◌∷◌, ◌++◌, Option,
  none, some, length, length-append, leb, arith, if◌then◌else◌, Result, ok, err, is_ok, SucceedsIf,
  SucceedsIf-bind, SucceedsIf-attempt, SucceedsIf-gets, SucceedsIf-require, SucceedsIf-modify,
  SucceedsIf-test, SucceedsIf-only, SucceedsIf-run, SucceedsIf-pure,
}
use i_am_human.Near.{AccountId, Env}
use i_am_human.Near.Words.{add_u64}
use i_am_human.Near.Keys.{ℕ_key}
use i_am_human.Near.Lookup.{LookupMap, insert}
use i_am_human.Sbt.{ClassId, TokenMetadata}
use i_am_human.Cost.{mint_deposit, calculate_mint_gas, calculate_iah_mint_gas}
use i_am_human.Community.{CommunityError, MintCall}
use i_am_human.Community.Mint.{
  Loop, class_info_cached, stamp_token, stamp_tokens, stamp_spec, first_loop, mint_many,
}

-- A token as it is minted, for a class with this time to live.
abbrev pub stamped : ℕ → ℕ → TokenMetadata → TokenMetadata
stamped now_ms ttl m = record m { expires_at = some (add_u64 now_ms ttl); issued_at = some now_ms }

-- The tokens of all receivers.
abbrev pub tokens_of : List (AccountId × List TokenMetadata) → List TokenMetadata
tokens_of [] = []
tokens_of ((a, ms) ∷ spec) = ms ++ tokens_of spec

-- The deposit that a mint of these tokens needs.
abbrev pub is_paid : Env → List (AccountId × List TokenMetadata) → Bool
is_paid env spec = leb (mint_deposit (length (tokens_of spec))) env.attached_deposit

module _ (class_info : ClassId → Result CommunityError (Bool × ℕ)) where
  abbrev pub ttl_of : ClassId → ℕ
  ttl_of c = elim (class_info c) [ ok ci ↦ ci.1 | err e ↦ 0 ]

  abbrev pub iah_of : ClassId → Bool
  iah_of c = elim (class_info c) [ ok ci ↦ ci.0 | err e ↦ false ]

  -- Every class may be minted.
  abbrev pub all_allowed : List TokenMetadata → Bool
  all_allowed [] = true
  all_allowed (m ∷ ms) = is_ok (class_info m.class) && all_allowed ms

  -- Some class requires the proof of humanity.
  abbrev pub some_iah : List TokenMetadata → Bool
  some_iah [] = false
  some_iah (m ∷ ms) = iah_of m.class || some_iah ms

  abbrev pub stamp_all : ℕ → List TokenMetadata → List TokenMetadata
  stamp_all now_ms [] = []
  stamp_all now_ms (m ∷ ms) = stamped now_ms (ttl_of m.class) m ∷ stamp_all now_ms ms

  abbrev pub stamp_pairs :
      ℕ → List (AccountId × List TokenMetadata) → List (AccountId × List TokenMetadata)
  stamp_pairs now_ms [] = []
  stamp_pairs now_ms ((a, ms) ∷ spec) = (a, stamp_all now_ms ms) ∷ stamp_pairs now_ms spec

  answer_ttl : Result CommunityError (Bool × ℕ) → ℕ
  answer_ttl (ok ci) = ci.1
  answer_ttl (err e) = 0

  -- The cache has what the contract answers.
  abbrev IsCache : LookupMap ClassId (Bool × ℕ) → Type 0
  IsCache cache = (c : ClassId) (ci : Bool × ℕ) → cache c ≡ some ci → class_info c ≡ ok ci

  IsCache-insert :
      (c : ClassId) (ci : Bool × ℕ) (cache : LookupMap ClassId (Bool × ℕ))
      → IsCache cache
      → class_info c ≡ ok ci
      → IsCache (insert c ci cache)
  IsCache-insert c ci cache h e d di q = ground (arith, h d di, e, q)

  class_info_cached-ok :
      (c : ClassId) (o : Option (Bool × ℕ)) (l : Loop)
      → IsCache l.class_info_map
      → l.class_info_map c ≡ o
      → SucceedsIf
          (is_ok (class_info c))
          (λ ci t.
            (class_info c ≡ ok ci)
            × IsCache t.class_info_map
            × (t.requires_iah ≡ l.requires_iah)
            × (t.total_len ≡ l.total_len))
          (class_info_cached class_info c o l)
  unfolding class_info_cached
  class_info_cached-ok c (some ci) l h e =
      SucceedsIf-test _ true _ _ (sym (ap is_ok (h c ci e)))
        (SucceedsIf-pure _ _ _ _ (h c ci e, h, refl, refl))
  class_info_cached-ok c none l h e = SucceedsIf-only _ _ _ (
      SucceedsIf-attempt _ _ _ _ _ λ ci q.
        SucceedsIf-modify _ _ _ _ _
          (SucceedsIf-pure _ _ _ _ (q, IsCache-insert c ci l.class_info_map h q, refl, refl)))

  stamp_token-ok :
      (now_ms : ℕ) (m : TokenMetadata) (l : Loop)
      → IsCache l.class_info_map
      → SucceedsIf
          (is_ok (class_info m.class))
          (λ x t.
            (x ≡ stamped now_ms (ttl_of m.class) m)
            × IsCache t.class_info_map
            × (t.requires_iah ≡ (l.requires_iah || iah_of m.class))
            × (t.total_len ≡ l.total_len))
          (stamp_token class_info now_ms m l)
  unfolding stamp_token answer_ttl
  stamp_token-ok now_ms m l h = SucceedsIf-gets _ _ _ _ _ (
      SucceedsIf-only _ _ _ (
        SucceedsIf-bind _ _ true _ _ _ _ (class_info_cached-ok m.class _ l h refl) λ ci t k.
          SucceedsIf-modify _ _ _ _ _ (
            SucceedsIf-pure _ _ _ _ (
              ap (λ ttl. stamped now_ms ttl m) (ap (λ r. answer_ttl r) (sym k.0)),
              k.1,
              ground (arith, k),
              k.3,
            ))))

  stamp_tokens-ok :
      (now_ms : ℕ) (ms : List TokenMetadata) (l : Loop)
      → IsCache l.class_info_map
      → SucceedsIf
          (all_allowed ms)
          (λ xs t.
            (xs ≡ stamp_all now_ms ms)
            × IsCache t.class_info_map
            × (t.requires_iah ≡ (l.requires_iah || some_iah ms))
            × (t.total_len ≡ l.total_len))
          (stamp_tokens class_info now_ms ms l)
  unfolding stamp_tokens
  stamp_tokens-ok now_ms [] l h = SucceedsIf-pure _ _ _ _ (refl, h, ground arith, refl)
  stamp_tokens-ok now_ms (m ∷ ms) l h =
      SucceedsIf-bind _ _ _ _ _ _ _ (stamp_token-ok now_ms m l h) λ x t k. SucceedsIf-only _ _ _ (
        SucceedsIf-bind _ _ true _ _ _ _ (stamp_tokens-ok now_ms ms t k.1) λ xs u j.
          SucceedsIf-pure _ _ _ _
            (ground (arith, j.0, k.0), j.1, ground (arith, j.2, k.2), j.3 ∙ k.3))

  all_allowed-append :
      (ms ns : List TokenMetadata) → all_allowed (ms ++ ns) ≡ (all_allowed ms && all_allowed ns)
  all_allowed-append [] ns = refl
  all_allowed-append (m ∷ ms) ns = ground (arith, all_allowed-append ms ns)

  some_iah-append :
      (ms ns : List TokenMetadata) → some_iah (ms ++ ns) ≡ (some_iah ms || some_iah ns)
  some_iah-append [] ns = refl
  some_iah-append (m ∷ ms) ns = ground (arith, some_iah-append ms ns)

  stamp_spec-ok :
      (now_ms : ℕ) (spec : List (AccountId × List TokenMetadata)) (l : Loop)
      → IsCache l.class_info_map
      → SucceedsIf
          (all_allowed (tokens_of spec))
          (λ xs t.
            (xs ≡ stamp_pairs now_ms spec)
            × (t.requires_iah ≡ (l.requires_iah || some_iah (tokens_of spec)))
            × (t.total_len ≡ l.total_len + length (tokens_of spec)))
          (stamp_spec class_info now_ms spec l)
  unfolding stamp_spec
  stamp_spec-ok now_ms [] l h = SucceedsIf-pure _ _ _ _ (refl, ground arith, omega arith)
  stamp_spec-ok now_ms ((a, ms) ∷ spec) l h =
      SucceedsIf-test _ _ _ _ (sym (all_allowed-append ms (tokens_of spec))) (
        SucceedsIf-modify _ _ _ _ _ (
          SucceedsIf-bind _ _ _ _ _ _ _ (stamp_tokens-ok now_ms ms _ h) λ x t k.
            SucceedsIf-only _ _ _ (
              SucceedsIf-bind _ _ true _ _ _ _ (stamp_spec-ok now_ms spec t k.1) λ xs u j.
                SucceedsIf-pure _ _ _ _ (
                  ground (arith, j.0, k.0),
                  ground (arith, j.1, k.2, some_iah-append ms (tokens_of spec)),
                  omega (arith, j.2, k.3, length-append ms (tokens_of spec)),
                ))))

  -- The call of the registry that `sbt_mint_many` makes.
  abbrev pub mint_of : Env → List (AccountId × List TokenMetadata) → MintCall
  mint_of env spec = record {
    with_iah = some_iah (tokens_of spec);
    token_spec = stamp_pairs env.now spec;
    deposit = env.attached_deposit;
    gas =
        if some_iah (tokens_of spec)
        then calculate_iah_mint_gas (length (tokens_of spec)) (length spec)
        else calculate_mint_gas (length (tokens_of spec));
  }

  length-stamp_pairs :
      (now_ms : ℕ) (spec : List (AccountId × List TokenMetadata))
      → length (stamp_pairs now_ms spec) ≡ length spec
  length-stamp_pairs now_ms [] = refl
  length-stamp_pairs now_ms ((a, ms) ∷ spec) = ap suc (length-stamp_pairs now_ms spec)

  -- It succeeds exactly if every class may be minted and the deposit is enough.
  pub mint_many-ok :
      {S : Type 0} (env : Env) (spec : List (AccountId × List TokenMetadata)) (s : S)
      → SucceedsIf
          (all_allowed (tokens_of spec) && is_paid env spec)
          (λ p t. (p ≡ mint_of env spec) × (t ≡ s))
          (mint_many class_info env spec s)
  unfolding mint_many
  mint_many-ok env spec s =
      SucceedsIf-run _ _ _ _ _ _ _
        (stamp_spec-ok env.now spec first_loop λ c ci e. absurd (ground (arith, e)))
        λ xs l k.
          let total : l.total_len ≡ length (tokens_of spec) = omega (arith, k.2) in
          SucceedsIf-test _ _ _ _ (ap (λ n. leb (mint_deposit n) env.attached_deposit) total) (
            SucceedsIf-only _ _ _ (
              SucceedsIf-require _ true _ _ _ _ λ _.
                SucceedsIf-pure _ _ _ _
                  (rw (k.0, k.1, total, length-stamp_pairs env.now spec) refl, refl)))
