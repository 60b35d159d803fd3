-- ===== src/Registry/Transfer/Loop.antt =====
-- The loop of `_sbt_soul_transfer` over its batch (contracts/registry/src/lib.rs).
use i_am_human.Base.{
  ℕ, ◌+◌, ◌≡◌, ◌≢◌, refl, ap, subst, ◌∙◌, ◌⊎◌, inl, inr, Option, none, some, is_some, [], ◌∷◌,
  length, if◌then◌else◌, arith, ◌==◌, ==_iff, Bool-cases, pure, Ensures, Ensures-bind, Ensures-pure,
  Ensures-mono,
}
use i_am_human.Near.{AccountId}
use i_am_human.Near.Keys.{ℕ_key, pair_key}
use i_am_human.Near.Tree.{lookup, Sorted, Above}
use i_am_human.Near.Tree.Laws.{lookup-Above}
use i_am_human.Sbt.{TokenId, ClassId}
use i_am_human.Registry.{Contract}
use i_am_human.Registry.Keys.{IssuerId, BalanceKey, balance_key, balance_ord, balance_eq_iff}
use i_am_human.Registry.Transfer.{move_supply, move_each}
use i_am_human.Registry.Transfer.Batch.{Entries, prefix}
use i_am_human.Registry.Transfer.Halfway.{Halfway}
use i_am_human.Registry.Transfer.Steps.{
  SupplyMoved, move_supply-SupplyMoved, TokenMoved, move_token-TokenMoved_own,
}

abbrev pub or_else : Option TokenId → Option TokenId → Option TokenId
or_else (some t) o = some t
or_else none o = o

-- From `s` to `t` the entries `own` of the owner went to the recipient.
pub record Moved (o r : AccountId) (own : Entries) (s t : Contract) : Type 0 where
  pub halfway : Halfway o r t
  pub left :
      (j : IssuerId) (d : ClassId)
      → lookup (balance_key o j d) t.balances ≡ (
          if is_some (lookup (balance_key o j d) own)
          then none
          else lookup (balance_key o j d) s.balances)
  pub arrived :
      (j : IssuerId) (d : ClassId)
      → lookup (balance_key r j d) t.balances
        ≡ or_else (lookup (balance_key o j d) own) (lookup (balance_key r j d) s.balances)
  pub others :
      (p : AccountId) (j : IssuerId) (d : ClassId)
      → p ≢ o
      → p ≢ r
      → lookup (balance_key p j d) t.balances ≡ lookup (balance_key p j d) s.balances

-- The entries are those of the registry, and none has the issuer 0.
pub record Present (o : AccountId) (own : Entries) (s : Contract) : Type 0 where
  pub held :
      (j : IssuerId) (d : ClassId) (t : TokenId)
      → lookup (balance_key o j d) own ≡ some t
      → lookup (balance_key o j d) s.balances ≡ some t
  pub issued : (d : ClassId) → lookup (balance_key o 0 d) own ≡ none

prefix-Above : (o : AccountId) (k : BalanceKey) (m : Entries) → Above k m → Above k (prefix o m)
unfolding prefix
prefix-Above o k [] a = tt
prefix-Above o k ((j, w) ∷ m) a = ground (arith, prefix-Above o k m a.1)

-- The issuer's supply is moved before its first token.
settled :
    (o r : AccountId) (prev : IssuerId) (i : IssuerId) (s : Contract)
    → o ≢ r
    → Halfway o r s
    → i ≢ 0
    → (prev ≡ 0) ⊎ (s.supply_by_owner (o, prev) ≡ none)
    → Ensures (λ _ t. SupplyMoved o r i s t) ((if prev == i then pure tt else move_supply o r i) s)
settled o r prev i s ne h pos before = elim (Bool-cases (prev == i)) [
  | inl e ↦
      rw e (Ensures-pure _ _ _ _ (record { halfway = h; gone = ground arith; balances = refl }))
  | inr e ↦ rw e (move_supply-SupplyMoved o r i s ne h)
]

module _ (o r : AccountId) (ne : o ≢ r) (k : BalanceKey) (t : TokenId) (m : Entries)
    (own : k.owner ≡ o) (apart : Above k m) where
  -- The first entry is there, and has an issuer.
  first-held :
      (s : Contract)
      → Present o ((k, t) ∷ prefix o m) s
      → (lookup (balance_key o k.issuer_id k.class_id) s.balances ≡ some t) × (k.issuer_id ≢ 0)
  unfolding lookup
  first-held s h =
      (h.held k.issuer_id k.class_id t (ground arith), λ z. ground (arith, h.issued k.class_id))

  -- Its key is not among the rest.
  rest-none : lookup (balance_key o k.issuer_id k.class_id) (prefix o m) ≡ none
  rest-none =
      subst (λ p. lookup (balance_key p k.issuer_id k.class_id) (prefix o m) ≡ none) own
        (lookup-Above k (prefix o m) (prefix-Above o k m apart))

  rest-Present :
      (s u v : Contract)
      → Present o ((k, t) ∷ prefix o m) s
      → u.balances ≡ s.balances
      → TokenMoved o r k.issuer_id k.class_id t u v
      → Present o (prefix o m) v
  unfolding lookup
  rest-Present s u v h e g = record {
    held = λ j d x f. ground (
      arith,
      h.held j d x,
      g.balances o j d,
      rest-none,
      ap (lookup (balance_key o j d)) e,
      balance_eq_iff (balance_key o j d) k,
    );
    issued = λ d. ground (arith, h.issued d);
  }

  rest-Moved :
      (s u v w : Contract)
      → u.balances ≡ s.balances
      → TokenMoved o r k.issuer_id k.class_id t u v
      → Moved o r (prefix o m) v w
      → Moved o r ((k, t) ∷ prefix o m) s w
  unfolding lookup
  rest-Moved s u v w e g h = record {
    halfway = h.halfway;
    left = λ j d.
        ground (arith, h.left j d, g.balances o j d, ap (lookup (balance_key o j d)) e, rest-none);
    arrived = λ j d.
        ground
          (arith, h.arrived j d, g.balances r j d, ap (lookup (balance_key r j d)) e, rest-none);
    others = λ p j d a b.
        ground (arith, h.others p j d a b, g.balances p j d, ap (lookup (balance_key p j d)) e);
  }

pub move_each-Moved :
    (o r : AccountId) (ne : o ≢ r) (prev : IssuerId) (counter : ℕ) (batch : Entries) (s : Contract)
    → Sorted batch
    → Halfway o r s
    → Present o (prefix o batch) s
    → (prev ≡ 0) ⊎ (s.supply_by_owner (o, prev) ≡ none)
    → Ensures
        (λ n t. Moved o r (prefix o batch) s t × (n ≡ counter + length (prefix o batch)))
        (move_each o r prev counter batch s)
unfolding move_each prefix lookup
move_each-Moved o r ne prev counter [] s so h pr before = Ensures-pure _ _ _ _ (
  record { halfway = h; left = λ j d. refl; arrived = λ j d. refl; others = λ p j d a b. refl },
  omega arith,
)
move_each-Moved o r ne prev counter ((k, t) ∷ m) s so h pr before =
    elim (Bool-cases (k.owner == o)) [
      | inl test ↦
          let own : k.owner ≡ o = (==_iff k.owner o).0 test in
          let here : Present o ((k, t) ∷ prefix o m) s = rw test at pr in
          let (held, issued) = first-held o r ne k t m own so.0 s here in
          rw test (
            Ensures-bind _ _ _ _ _ (settled o r prev k.issuer_id s ne h issued before) λ _ u g.
              Ensures-bind _ _ _ _ _
                (move_token-TokenMoved_own o r k t u own ne g.halfway (rw g.balances held) g.gone)
                λ _ v f.
                  Ensures-mono _ _ _
                    (λ n w q. (
                      rest-Moved o r ne k t m own so.0 s u v w g.balances f q.0,
                      omega (arith, q.1),
                    ))
                    (move_each-Moved o r ne k.issuer_id (counter + 1) m v so.1 f.halfway
                      (rest-Present o r ne k t m own so.0 s u v here g.balances f)
                      (inr (
                        ap (λ (x : AccountId × IssuerId → Option ℕ). x (o, k.issuer_id)) f.supplies
                        ∙ g.gone))))
      | inr other ↦ rw other (
          Ensures-pure _ _ _ _ (
            record {
              halfway = h;
              left = λ j d. refl;
              arrived = λ j d. refl;
              others = λ p j d a b. refl;
            },
            omega arith,
          ))
    ]
