-- ===== src/Registry/Transfer/Batch.antt =====
-- What a batch of balances holds: the prefix of one owner's entries after a key.
use i_am_human.Base.{
  ℕ, zero, suc, ◌≡◌, ◌≢◌, refl, ap, true, none, some, [], ◌∷◌, if◌then◌else◌, arith, ◌==◌, length,
  take, Bool-cases, inl, inr,
}
use i_am_human.Near.{AccountId}
use i_am_human.Near.Tree.{TreeMap, Above, Sorted, lookup, iter_from}
use i_am_human.Near.Tree.Laws.{Above-trans, lookup-Above}
use i_am_human.Sbt.{TokenId, ClassId}
use i_am_human.Registry.Keys.{
  IssuerId, BalanceKey, balance_key, balance_ord, balance_lt, balance_eq_iff,
}

abbrev pub Entries : Type 0
Entries = TreeMap BalanceKey TokenId

-- The entries of one owner that the list begins with.
unfoldable pub prefix : AccountId → Entries → Entries
prefix o [] = []
prefix o ((k, t) ∷ m) = let rest = prefix o m in if k.owner == o then (k, t) ∷ rest else []

pub lookup-iter_from :
    (k j : BalanceKey) (m : Entries)
    → lookup j (iter_from k m) ≡ (if balance_lt k j then lookup j m else none)
unfolding lookup iter_from
lookup-iter_from k j [] = ground arith
lookup-iter_from k j ((i, w) ∷ m) = ground (arith, balance_eq_iff j i, lookup-iter_from k j m)

pub Above-iter_from : (i k : BalanceKey) (m : Entries) → Above i m → Above i (iter_from k m)
unfolding iter_from
Above-iter_from i k [] a = tt
Above-iter_from i k ((j, w) ∷ m) a = ground (arith, Above-iter_from i k m a.1)

pub iter_from-Sorted : (k : BalanceKey) (m : Entries) → Sorted m → Sorted (iter_from k m)
unfolding iter_from
iter_from-Sorted k [] s = tt
iter_from-Sorted k ((j, w) ∷ m) s =
    ground (arith, Above-iter_from j k m s.0, iter_from-Sorted k m s.1)

pub iter_from-Above : (k : BalanceKey) (m : Entries) → Above k (iter_from k m)
unfolding iter_from
iter_from-Above k [] = tt
iter_from-Above k ((j, w) ∷ m) = ground (arith, iter_from-Above k m)

pub Above-take : (k : BalanceKey) (n : ℕ) (m : Entries) → Above k m → Above k (take n m)
Above-take k zero m a = tt
Above-take k (suc n) [] a = tt
Above-take k (suc n) ((j, w) ∷ m) a = (a.0, Above-take k n m a.1)

pub take-Sorted : (n : ℕ) (m : Entries) → Sorted m → Sorted (take n m)
take-Sorted zero m s = tt
take-Sorted (suc n) [] s = tt
take-Sorted (suc n) ((j, w) ∷ m) s = (Above-take j n m s.0, take-Sorted n m s.1)

pub lookup-take :
    (j : BalanceKey) (n : ℕ) (m : Entries) (t : TokenId)
    → lookup j (take n m) ≡ some t
    → lookup j m ≡ some t
unfolding lookup
lookup-take j zero m t h = cc
lookup-take j (suc n) [] t h = h
lookup-take j (suc n) ((i, w) ∷ m) t h = ground (arith, lookup-take j n m t)

-- In a sorted list above a key of the owner, all of his entries stand in the prefix.
pub lookup-prefix :
    (k : BalanceKey) (i : IssuerId) (c : ClassId) (m : Entries)
    → Sorted m
    → Above k m
    → lookup (balance_key k.owner i c) (prefix k.owner m) ≡ lookup (balance_key k.owner i c) m
unfolding lookup prefix
lookup-prefix k i c [] s a = refl
lookup-prefix k i c ((j, w) ∷ m) s a = elim (Bool-cases (j.owner == k.owner)) [
  | inl own ↦ rw own (ground (arith, lookup-prefix k i c m s.1 a.1))
  | inr other ↦
      let lt : balance_lt (balance_key k.owner i c) j ≡ true = ground arith in
      let gone = lookup-Above _ m (Above-trans (balance_key k.owner i c) j m lt s.0) in
      rw other (ground (arith, gone))
]

-- A prefix shorter than the batch is the whole prefix.
pub prefix-take :
    (o : AccountId) (n : ℕ) (m : Entries)
    → length (prefix o (take n m)) ≢ n
    → prefix o (take n m) ≡ prefix o m
unfolding prefix
prefix-take o zero m h = absurd (h refl)
prefix-take o (suc n) [] h = refl
prefix-take o (suc n) ((k, t) ∷ m) h = elim (Bool-cases (k.owner == o)) [
  | inl own ↦ rw own (ap (◌∷◌ (k, t)) (prefix-take o n m (ground arith)))
  | inr other ↦ rw other
]
