-- ===== src/Registry/Renew/References.antt =====
-- What the loop of `sbt_update_token_references` writes into the tokens' records
-- (contracts/registry/src/lib.rs).
use i_am_human.Base.{
  ℕ, ◌≡◌, refl, ap, ◌==◌, Option, none, some, List, [], ◌∷◌, String, arith, Bool-cases,
  Option-cases, inl, inr, if◌then◌else◌, Ensures, Ensures-bind, Ensures-pure, Ensures-last,
  Ensures-modify, Ensures-mono, Ensures-both,
}
use i_am_human.Near.{Env}
use i_am_human.Near.Keys.{ℕ_key}
use i_am_human.Near.Lookup.{insert}
use i_am_human.Sbt.{TokenId, TokenData, v1, to_v1}
use i_am_human.Registry.{Contract, Log}
use i_am_human.Registry.Keys.{IssuerId, token_id, token_key}
use i_am_human.Registry.Invariant.{IsValid}
use i_am_human.Registry.Rules.{Ensures-assert_issuer}
use i_am_human.Registry.Tables.Rules.{Ensures-get_token}
use i_am_human.Registry.Renew.{Update, update_each, sbt_update_token_references}
use i_am_human.Registry.Renew.Validity.{sbt_update_token_references-IsValid}

-- The last reference of the list for a token, with its hash.
abbrev pub last_update : TokenId → List Update → Option (Option String × Option (List ℕ))
last_update x [] = none
last_update x ((y, reference, hash) ∷ updates) = elim (last_update x updates) [
  | some r ↦ some r
  | none ↦ if x == y then some (reference, hash) else none
]

-- The record with another reference.
abbrev pub referred : Option String × Option (List ℕ) → TokenData → TokenData
referred r td = record {
  owner = td.owner;
  metadata = v1 (record {
    class = (to_v1 td.metadata).class;
    issued_at = (to_v1 td.metadata).issued_at;
    expires_at = (to_v1 td.metadata).expires_at;
    reference = r.0;
    reference_hash = r.1;
  });
}

-- The issuer's tokens of the list have records, which have got their last reference of it; nothing
-- else has changed but the log.
pub record Referred (i : IssuerId) (updates : List Update) (s t : Contract) : Type 0 where
  pub set :
      (x : TokenId) (r : Option String × Option (List ℕ))
      → last_update x updates ≡ some r
      → (td : TokenData) × (s.issuer_tokens (token_id i x) ≡ some td)
        × (t.issuer_tokens (token_id i x) ≡ some (referred r td))
  pub rest :
      (j : IssuerId) (x : TokenId)
      → (j ≡ i → last_update x updates ≡ none)
      → t.issuer_tokens (token_id j x) ≡ s.issuer_tokens (token_id j x)
  pub frame : t ≡ record s { issuer_tokens = t.issuer_tokens; logs = t.logs }

Referred-cons :
    (i : IssuerId) (y : TokenId) (r : Option String) (hash : Option (List ℕ))
    (updates : List Update) (td : TokenData) (s t : Contract)
    → s.issuer_tokens (token_id i y) ≡ some td
    → Referred i updates
        (record s { issuer_tokens = insert (token_id i y) (referred (r, hash) td) s.issuer_tokens })
        t
    → Referred i ((y, r, hash) ∷ updates) s t
Referred-cons i y r hash updates td s t e w = record {
  set = λ x q h. elim (Option-cases (last_update x updates)) [
    | inr (p, m) ↦ elim (Bool-cases (x == y)) [
      | inl same ↦ (td, ground (arith, same, e), ground (arith, same, h, m, w.set x p m))
      | inr other ↦ (
        (w.set x p m).0,
        ground (arith, other, (w.set x p m).1),
        ground (arith, h, m, (w.set x p m).2),
      )
    ]
    | inl m ↦ elim (Bool-cases (x == y)) [
      | inl same ↦ (td, ground (arith, same, e), ground (arith, same, h, m, w.rest i x (λ _. m)))
      | inr other ↦ absurd (ground (arith, h, m, other))
    ]
  ];
  rest = λ j x h. elim (Option-cases (last_update x updates)) [
    | inl m ↦ ground (arith, h, m, w.rest j x (λ _. m))
    | inr (p, m) ↦ ground (arith, h, m, w.rest j x (λ same. absurd (ground (arith, h same, m))))
  ];
  frame = w.frame;
}

Referred-log :
    (i : IssuerId) (updates : List Update) (s t : Contract) (logs : List Log)
    → Referred i updates s t
    → Referred i updates s (record t { logs = logs })
Referred-log i updates s t logs w = record {
  set = w.set;
  rest = w.rest;
  frame = ap (λ (u : Contract). record u { logs = logs }) w.frame;
}

update_each-Referred :
    (i : IssuerId) (updates : List Update) (s : Contract)
    → Ensures (λ _ t. Referred i updates s t) (update_each i updates s)
unfolding update_each
update_each-Referred i [] s =
    Ensures-pure _ _ _ _
      (record { set = λ x r h. absurd (ground (arith, h)); rest = λ j x h. refl; frame = refl })
update_each-Referred i ((y, r, hash) ∷ updates) s = Ensures-get_token _ _ _ _ _ λ td e.
    Ensures-modify _ _ _ _ (
      Ensures-mono _ _ _ (λ _ t w. Referred-cons i y r hash updates td s t e w)
        (update_each-Referred i updates _))

-- In a valid registry a successful `sbt_update_token_references` leaves a valid one; it comes from an
-- issuer, all the tokens given have records of that issuer's, which have the last reference and hash
-- given for them afterwards and are as before otherwise, and no other record and no other table has
-- changed.
pub sbt_update_token_references-Referred :
    (env : Env) (updates : List Update) (s : Contract)
    → IsValid s
    → Ensures
        (λ _ t.
          IsValid t
          × ((i : IssuerId) × (s.sbt_issuers env.predecessor ≡ some i) × Referred i updates s t))
        (sbt_update_token_references env updates s)
unfolding sbt_update_token_references
sbt_update_token_references-Referred env updates s v =
    Ensures-both _ _ _ (sbt_update_token_references-IsValid env updates s v) (
      Ensures-assert_issuer _ _ _ _ λ i e.
        Ensures-bind _ _ _ _ _ (update_each-Referred i updates s)
          λ _ t w. Ensures-last _ _ _ _ (i, e, Referred-log i updates s t _ w))
