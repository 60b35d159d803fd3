-- ===== src/Registry/Transfer/Halfway.antt =====
-- The registry during a soul transfer: what holds between two tokens, and between two calls.
use i_am_human.Base.{
  ◌+◌, ◌≡◌, ◌≢◌, ◌⊎◌, inl, inr, Bool, ◌&&◌, none, some, if◌then◌else◌, arith, ◌==◌, ==_iff,
  Bool-cases,
}
use i_am_human.Near.{AccountId}
use i_am_human.Near.Keys.{ℕ_key, pair_key}
use i_am_human.Near.Lookup
use i_am_human.Near.Tree
use i_am_human.Near.Tree.{TreeMap, count, lookup}
use i_am_human.Near.Tree.Laws.{
  lookup-insert, lookup-remove, insert-Sorted, remove-Sorted, count-insert, count-remove,
}
use i_am_human.Sbt.{TokenId, ClassId, TokenData}
use i_am_human.Registry.{Contract}
use i_am_human.Registry.Keys.{IssuerId, BalanceKey, token_id, token_key, balance_key, balance_ord}
use i_am_human.Registry.Invariant.{
  Linked, Numbered, Counts, ClassesCounted, IssuersCounted, IsValid, of_owner, of_class, of_issuer,
}

-- The supplies of one issuer's tokens at the owner and at the recipient: each counts its own, or
-- the recipient's counts both and the owner's is gone.
abbrev pub Split : AccountId → AccountId → IssuerId → Contract → Type 0
Split o r j s =
    (Counts (s.supply_by_owner (o, j)) (count (of_owner o j) s.balances)
      × Counts (s.supply_by_owner (r, j)) (count (of_owner r j) s.balances))
    ⊎ ((s.supply_by_owner (o, j) ≡ none)
        × Counts (s.supply_by_owner (r, j))
            (count (of_owner r j) s.balances + count (of_owner o j) s.balances))

-- The invariant of a transfer from `o` to `r` that has begun.
pub record Halfway (o r : AccountId) (s : Contract) : Type 0 where
  pub linked : Linked s.balances s.issuer_tokens
  pub classes : ClassesCounted s
  pub issuers : IssuersCounted s
  pub numbered : Numbered s
  pub others :
      (p : AccountId) (j : IssuerId)
      → p ≢ o
      → p ≢ r
      → Counts (s.supply_by_owner (p, j)) (count (of_owner p j) s.balances)
  pub split : (j : IssuerId) → Split o r j s

pub IsValid-Halfway : (o r : AccountId) (s : Contract) → IsValid s → Halfway o r s
IsValid-Halfway o r s v = record {
  linked = v.linked;
  classes = v.classes;
  issuers = v.issuers;
  numbered = v.numbered;
  others = λ p j _ _. v.owners p j;
  split = λ j. inl (v.owners o j, v.owners r j);
}

-- Once the owner holds nothing, the transfer is over.
pub Halfway-IsValid :
    (o r : AccountId) (s : Contract)
    → o ≢ r
    → Halfway o r s
    → ((j : IssuerId) → count (of_owner o j) s.balances ≡ 0)
    → IsValid s
Halfway-IsValid o r s ne h gone = record {
  linked = h.linked;
  owners = λ p j. elim (Bool-cases (p == o)) [
    | inl e ↦ rw ((==_iff p o).0 e) (ground (arith, h.split j, gone j))
    | inr e ↦ elim (Bool-cases (p == r)) [
      | inl f ↦ rw ((==_iff p r).0 f) (ground (arith, h.split j, gone j))
      | inr f ↦ h.others p j (ground arith) (ground arith)
    ]
  ];
  classes = h.classes;
  issuers = h.issuers;
  numbered = h.numbered;
}

-- The tables after one token of `(i, c)` moved from `o` to `r`.
abbrev pub moved :
    AccountId → AccountId → IssuerId → ClassId → TokenId → TokenData → Contract → Contract
moved o r i c t td s = record s {
  balances = Tree.remove (balance_key o i c) (Tree.insert (balance_key r i c) t s.balances);
  issuer_tokens = Lookup.insert (token_id i t) (record td { owner = r }) s.issuer_tokens;
}

module _ (o r : AccountId) (i : IssuerId) (c : ClassId) (t : TokenId) (td : TokenData)
    (s : Contract) (ne : o ≢ r) (l : Linked s.balances s.issuer_tokens)
    (held : lookup (balance_key o i c) s.balances ≡ some t)
    (free : lookup (balance_key r i c) s.balances ≡ none)
    (found : s.issuer_tokens (token_id i t) ≡ some td) where
  with_new : TreeMap BalanceKey TokenId
  with_new = Tree.insert (balance_key r i c) t s.balances

  held_new : lookup (balance_key o i c) with_new ≡ some t
  unfolding with_new
  held_new = ground (arith, lookup-insert (balance_key r i c) (balance_key o i c) t s.balances)

  pub lookup-moved :
      (p : AccountId) (j : IssuerId) (d : ClassId)
      → lookup (balance_key p j d) (moved o r i c t td s).balances ≡ (
          if p == o && (j == i && d == c)
          then none
          else if p == r && (j == i && d == c)
          then some t
          else lookup (balance_key p j d) s.balances)
  unfolding with_new
  lookup-moved p j d = ground (
    arith,
    lookup-remove (balance_key o i c) (balance_key p j d) with_new
        (insert-Sorted (balance_key r i c) t s.balances l.sorted),
    lookup-insert (balance_key r i c) (balance_key p j d) t s.balances,
  )

  moved-Linked : Linked (moved o r i c t td s).balances (moved o r i c t td s).issuer_tokens
  moved-Linked = record {
    sorted = remove-Sorted _ _ (insert-Sorted (balance_key r i c) t s.balances l.sorted);
    link = λ p j d u. ground (
      arith,
      l.link p j d u,
      l.link o i c t,
      l.link o i c u,
      l.link p i d t,
      l.link r i c u,
      lookup-moved p j d,
    );
  }

  -- A count gains what the recipient's key counts and loses what the owner's does.
  count-moved :
      (q : BalanceKey → Bool)
      → (if q (balance_key o i c) then 1 else 0) + count q (moved o r i c t td s).balances
        ≡ (if q (balance_key r i c) then 1 else 0) + count q s.balances
  unfolding with_new
  count-moved q = omega (
    arith,
    count-remove q (balance_key o i c) t with_new held_new,
    count-insert q (balance_key r i c) t s.balances free,
  )

  module _ (h : Halfway o r s) (gone : s.supply_by_owner (o, i) ≡ none) where
    moved-Split : (j : IssuerId) → Split o r j (moved o r i c t td s)
    moved-Split j =
        let a = count-moved (of_owner o j) in
        let b = count-moved (of_owner r j) in
        elim (Bool-cases (i == j)) [
          | inl e ↦ elim (h.split j) [
            | inl q ↦ absurd (ground (arith, a, q.0))
            | inr q ↦ inr (q.0, ground (arith, a, b, q.1))
          ]
          | inr e ↦
              let eo : count (of_owner o j) (moved o r i c t td s).balances
                  ≡ count (of_owner o j) s.balances =
                ground (arith, a) in
              let er : count (of_owner r j) (moved o r i c t td s).balances
                  ≡ count (of_owner r j) s.balances =
                ground (arith, b) in
              rw (eo, er) (h.split j)
        ]

  pub moved-Halfway :
      Halfway o r s → s.supply_by_owner (o, i) ≡ none → Halfway o r (moved o r i c t td s)
  moved-Halfway h gone = record {
    linked = moved-Linked;
    classes = λ j d. ground (arith, h.classes j d, count-moved (of_class j d));
    issuers = λ j. ground (arith, h.issuers j, count-moved (of_issuer j));
    numbered = λ j u. ground (arith, h.numbered j u);
    others = λ p j a b. ground (arith, h.others p j a b, count-moved (of_owner p j));
    split = λ j. moved-Split h gone j;
  }
