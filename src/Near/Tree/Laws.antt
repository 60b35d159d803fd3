-- ===== src/Near/Tree/Laws.antt =====
-- The laws of the sorted map: lookups and counts under each update, and that it stays sorted.
use i_am_human.Base.{
  ◌+◌, ◌≡◌, refl, subst, Bool, true, false, none, some, [], ◌∷◌, if◌then◌else◌, arith, Bool-cases,
  inl, inr,
}
use i_am_human.Near.Keys.{Ord}
use i_am_human.Near.Tree.{TreeMap, lookup, insert, remove, count, Above, Sorted}

module _ {K : Type 0} ⦃o : Ord K⦄ where
  pub ord_eq_refl : (k : K) → o.eq k k ≡ true
  ord_eq_refl k = (o.eq_iff k k).1 refl

  pub eq_false_of_lt : (k j : K) → o.lt k j ≡ true → o.eq k j ≡ false
  eq_false_of_lt k j h = elim (Bool-cases (o.eq k j)) [
    | inl e ↦
        let p : k ≡ j = (o.eq_iff k j).0 e in
        let q : o.lt j j ≡ true = subst (λ x. o.lt x j ≡ true) p h in cc (o.lt_irrefl j)
    | inr e ↦ e
  ]

module _ {K : Type 0} ⦃o : Ord K⦄ {V : Type 0} where
  pub Above-trans : (k j : K) (m : TreeMap K V) → o.lt k j ≡ true → Above j m → Above k m
  Above-trans k j [] h a = tt
  Above-trans k j ((i, w) ∷ m) h a = (o.lt_trans k j i h a.0, Above-trans k j m h a.1)

  pub lookup-Above : (k : K) (m : TreeMap K V) → Above k m → lookup k m ≡ none
  unfolding lookup
  lookup-Above k [] a = refl
  lookup-Above k ((i, w) ∷ m) a = rw (eq_false_of_lt k i a.0) (lookup-Above k m a.1)

  pub lookup-insert :
      (k j : K) (v : V) (m : TreeMap K V)
      → lookup j (insert k v m) ≡ (if o.eq j k then some v else lookup j m)
  unfolding lookup insert
  lookup-insert k j v [] = refl
  lookup-insert k j v ((i, w) ∷ m) =
      ground (arith, o.eq_iff k i, o.eq_iff j i, o.eq_iff j k, lookup-insert k j v m)

  pub lookup-remove :
      (k j : K) (m : TreeMap K V)
      → Sorted m
      → lookup j (remove k m) ≡ (if o.eq j k then none else lookup j m)
  unfolding lookup remove
  lookup-remove k j [] s = ground arith
  lookup-remove k j ((i, w) ∷ m) s = ground (
    arith,
    o.eq_iff k i,
    o.eq_iff j i,
    o.eq_iff j k,
    lookup-remove k j m s.1,
    lookup-Above i m s.0,
  )

  Above-insert :
      (i k : K) (v : V) (m : TreeMap K V) → o.lt i k ≡ true → Above i m → Above i (insert k v m)
  unfolding insert
  Above-insert i k v [] h a = (h, tt)
  Above-insert i k v ((j, w) ∷ m) h a = ground (arith, Above-insert i k v m h a.1)

  pub insert-Sorted : (k : K) (v : V) (m : TreeMap K V) → Sorted m → Sorted (insert k v m)
  unfolding insert
  insert-Sorted k v [] s = (tt, tt)
  insert-Sorted k v ((j, w) ∷ m) s = elim (Bool-cases (o.eq k j)) [
    | inl e ↦ rw e (rw ((o.eq_iff k j).0 e) s)
    | inr e ↦ elim (Bool-cases (o.lt k j)) [
      | inl l ↦ rw (e, l) ((l, Above-trans k j m l s.0), s)
      | inr l ↦ rw (e, l) (Above-insert j k v m (o.lt_total k j l e) s.0, insert-Sorted k v m s.1)
    ]
  ]

  Above-remove : (i k : K) (m : TreeMap K V) → Above i m → Above i (remove k m)
  unfolding remove
  Above-remove i k [] a = tt
  Above-remove i k ((j, w) ∷ m) a = ground (arith, Above-remove i k m a.1)

  pub remove-Sorted : (k : K) (m : TreeMap K V) → Sorted m → Sorted (remove k m)
  unfolding remove
  remove-Sorted k [] s = tt
  remove-Sorted k ((j, w) ∷ m) s = ground (arith, Above-remove j k m s.0, remove-Sorted k m s.1)

  pub count-insert :
      (p : K → Bool) (k : K) (v : V) (m : TreeMap K V)
      → lookup k m ≡ none
      → count p (insert k v m) ≡ (if p k then 1 else 0) + count p m
  unfolding lookup insert count
  count-insert p k v [] h = refl
  count-insert p k v ((j, w) ∷ m) h = ground (arith, count-insert p k v m)

  pub count-remove :
      (p : K → Bool) (k : K) (v : V) (m : TreeMap K V)
      → lookup k m ≡ some v
      → (if p k then 1 else 0) + count p (remove k m) ≡ count p m
  unfolding lookup remove count
  count-remove p k v [] h = cc
  count-remove p k v ((j, w) ∷ m) h = ground (arith, o.eq_iff k j, count-remove p k v m)
