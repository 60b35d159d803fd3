-- ===== src/Registry/Renew/Records.antt =====
-- What the loops of `_sbt_renew` and of `sbt_revoke` without burning write into the tokens' records
-- (contracts/registry/src).
use i_am_human.Base.{
  ℕ, ◌≡◌, refl, ap, not, ◌==◌, some, List, [], ◌∷◌, contains, arith, true, false, Bool-cases, inl,
  inr, Ensures, Ensures-bind, Ensures-pure, Ensures-last, Ensures-modify, Ensures-mono,
  Ensures-both,
}
use i_am_human.Near.{Env}
use i_am_human.Near.Keys.{ℕ_key}
use i_am_human.Near.Lookup.{insert}
use i_am_human.Sbt.{TokenId, TokenData, v1, to_v1}
use i_am_human.Registry.{Contract, Log}
use i_am_human.Registry.Keys.{IssuerId, token_id, token_key}
use i_am_human.Registry.Invariant.{IsValid}
use i_am_human.Registry.Rules.{Ensures-assert_issuer, Ensures-assert_not_banned}
use i_am_human.Registry.Tables.Rules.{Ensures-get_token}
use i_am_human.Registry.Renew.{renew_each, sbt_renew}
use i_am_human.Registry.Renew.Validity.{sbt_renew-IsValid, sbt_revoke-IsValid}
use i_am_human.Registry.Revoke.{expire_each, sbt_revoke}

-- The record with another expiry.
abbrev pub dated : ℕ → TokenData → TokenData
dated time td = record {
  owner = td.owner;
  metadata = v1 (record {
    class = (to_v1 td.metadata).class;
    issued_at = (to_v1 td.metadata).issued_at;
    expires_at = some time;
    reference = (to_v1 td.metadata).reference;
    reference_hash = (to_v1 td.metadata).reference_hash;
  });
}

-- The issuer's tokens of the list have records, which have got this expiry; nothing else has changed
-- but the log.
pub record Dated (i : IssuerId) (time : ℕ) (tokens : List TokenId) (s t : Contract) : Type 0 where
  pub set :
      (x : TokenId)
      → contains x tokens ≡ true
      → (td : TokenData) × (s.issuer_tokens (token_id i x) ≡ some td)
        × (t.issuer_tokens (token_id i x) ≡ some (dated time td))
  pub rest :
      (j : IssuerId) (x : TokenId)
      → (j ≡ i → contains x tokens ≡ false)
      → t.issuer_tokens (token_id j x) ≡ s.issuer_tokens (token_id j x)
  pub frame : t ≡ record s { issuer_tokens = t.issuer_tokens; logs = t.logs }

Dated-cons :
    (i : IssuerId) (time : ℕ) (y : TokenId) (tokens : List TokenId) (td : TokenData)
    (s t : Contract)
    → s.issuer_tokens (token_id i y) ≡ some td
    → Dated i time tokens
        (record s { issuer_tokens = insert (token_id i y) (dated time td) s.issuer_tokens })
        t
    → Dated i time (y ∷ tokens) s t
Dated-cons i time y tokens td s t e w = record {
  set = λ x h. elim (Bool-cases (contains x tokens)) [
    | inl m ↦ elim (Bool-cases (x == y)) [
      | inl same ↦ (td, ground (arith, same, e), ground (arith, same, w.set x m))
      | inr other ↦ ((w.set x m).0, ground (arith, other, (w.set x m).1), (w.set x m).2)
    ]
    | inr m ↦ elim (Bool-cases (x == y)) [
      | inl same ↦ (td, ground (arith, same, e), ground (arith, same, w.rest i x (λ _. m)))
      | inr other ↦ absurd (ground (arith, h, m, other))
    ]
  ];
  rest = λ j x h. ground (arith, h, w.rest j x);
  frame = w.frame;
}

-- The log is apart from the records.
Dated-log :
    (i : IssuerId) (time : ℕ) (tokens : List TokenId) (s t : Contract) (logs : List Log)
    → Dated i time tokens s t
    → Dated i time tokens s (record t { logs = logs })
Dated-log i time tokens s t logs w = record {
  set = w.set;
  rest = w.rest;
  frame = ap (λ (u : Contract). record u { logs = logs }) w.frame;
}

-- None of the tokens is a banned account's.
abbrev pub NoneBanned : IssuerId → List TokenId → Contract → Type 0
NoneBanned i tokens s =
    (x : TokenId)
    → contains x tokens ≡ true
    → (td : TokenData) × (s.issuer_tokens (token_id i x) ≡ some td) × (s.banlist td.owner ≡ false)

NoneBanned-cons :
    (i : IssuerId) (time : ℕ) (y : TokenId) (tokens : List TokenId) (td : TokenData) (s : Contract)
    → s.issuer_tokens (token_id i y) ≡ some td
    → not (s.banlist td.owner) ≡ true
    → NoneBanned i tokens
        (record s { issuer_tokens = insert (token_id i y) (dated time td) s.issuer_tokens })
    → NoneBanned i (y ∷ tokens) s
NoneBanned-cons i time y tokens td s e free w x h = elim (Bool-cases (x == y)) [
  | inl same ↦ (td, ground (arith, same, e), ground (arith, free))
  | inr other ↦ (let g = w x (ground (arith, h, other)) in (g.0, ground (arith, other, g.1), g.2))
]

renew_each-Dated :
    (i : IssuerId) (time : ℕ) (tokens : List TokenId) (s : Contract)
    → Ensures (λ _ t. Dated i time tokens s t × NoneBanned i tokens s) (renew_each i time tokens s)
unfolding renew_each
renew_each-Dated i time [] s = Ensures-pure _ _ _ _ (
  record { set = λ x h. absurd (ground (arith, h)); rest = λ j x h. refl; frame = refl },
  λ x h. absurd (ground (arith, h)),
)
renew_each-Dated i time (y ∷ tokens) s = Ensures-get_token _ _ _ _ _ λ td e.
    Ensures-assert_not_banned _ _ _ _ λ free. Ensures-modify _ _ _ _ (
      Ensures-mono _ _ _
        (λ _ t w. (
          Dated-cons i time y tokens td s t e w.0,
          NoneBanned-cons i time y tokens td s e free w.1,
        ))
        (renew_each-Dated i time tokens _))

expire_each-Dated :
    (i : IssuerId) (time : ℕ) (tokens : List TokenId) (s : Contract)
    → Ensures (λ _ t. Dated i time tokens s t) (expire_each i time tokens s)
unfolding expire_each
expire_each-Dated i time [] s =
    Ensures-pure _ _ _ _
      (record { set = λ x h. absurd (ground (arith, h)); rest = λ j x h. refl; frame = refl })
expire_each-Dated i time (y ∷ tokens) s = Ensures-get_token _ _ _ _ _ λ td e.
    Ensures-modify _ _ _ _ (
      Ensures-mono _ _ _ (λ _ t w. Dated-cons i time y tokens td s t e w)
        (expire_each-Dated i time tokens _))

-- In a valid registry a successful `sbt_renew` leaves a valid one; it comes from an issuer, all the
-- tokens given have records of that issuer's with owners who are not banned, the records have the new
-- expiry afterwards and are as before otherwise, and no other record and no other table has changed.
pub sbt_renew-Dated :
    (env : Env) (tokens : List TokenId) (time : ℕ) (s : Contract)
    → IsValid s
    → Ensures
        (λ _ t.
          IsValid t
          × ((i : IssuerId) × (s.sbt_issuers env.predecessor ≡ some i)
              × Dated i time tokens s t
              × NoneBanned i tokens s))
        (sbt_renew env tokens time s)
unfolding sbt_renew
sbt_renew-Dated env tokens time s v = Ensures-both _ _ _ (sbt_renew-IsValid env tokens time s v) (
    Ensures-assert_issuer _ _ _ _ λ i e.
      Ensures-bind _ _ _ _ _ (renew_each-Dated i time tokens s)
        λ _ t w. Ensures-last _ _ _ _ (i, e, Dated-log i time tokens s t _ w.0, w.1))

-- In a valid registry a successful `sbt_revoke` that does not burn leaves a valid one; it comes from
-- an issuer, all the tokens given have records of that issuer's, which expire now afterwards and are
-- as before otherwise, and no other record and no other table has changed.
pub sbt_revoke-Dated :
    (env : Env) (tokens : List TokenId) (s : Contract)
    → IsValid s
    → Ensures
        (λ _ t.
          IsValid t
          × ((i : IssuerId) × (s.sbt_issuers env.predecessor ≡ some i)
              × Dated i env.now tokens s t))
        (sbt_revoke env tokens false s)
unfolding sbt_revoke
sbt_revoke-Dated env tokens s v = Ensures-both _ _ _ (sbt_revoke-IsValid env tokens s v) (
    Ensures-assert_issuer _ _ _ _ λ i e.
      Ensures-bind _ _ _ _ _ (expire_each-Dated i env.now tokens s)
        λ _ t w. Ensures-last _ _ _ _ (i, e, Dated-log i env.now tokens s t _ w))
