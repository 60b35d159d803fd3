-- ===== src/Near/Tree.antt =====
-- `near_sdk::collections::TreeMap`: a map sorted by its keys. `iter_from` starts after its key.
pub mod Laws
use i_am_human.Base.{
  ℕ, zero, suc, ◌+◌, ◌≡◌, Bool, true, false, Option, none, some, List, [], ◌∷◌, if◌then◌else◌,
}
use i_am_human.Near.Keys.{Ord}

abbrev pub TreeMap : Type 0 → Type 0 → Type 0
TreeMap K V = List (K × V)

module _ {K : Type 0} ⦃o : Ord K⦄ {V : Type 0} where
  unfoldable pub lookup : K → TreeMap K V → Option V
  lookup k [] = none
  lookup k ((j, v) ∷ m) = if o.eq k j then some v else lookup k m

  unfoldable pub insert : K → V → TreeMap K V → TreeMap K V
  insert k v [] = (k, v) ∷ []
  insert k v ((j, w) ∷ m) =
      if o.eq k j
      then (k, v) ∷ m
      else if o.lt k j
      then (k, v) ∷ (j, w) ∷ m
      else (j, w) ∷ insert k v m

  unfoldable pub remove : K → TreeMap K V → TreeMap K V
  remove k [] = []
  remove k ((j, w) ∷ m) = if o.eq k j then m else (j, w) ∷ remove k m

  -- The entries whose key is greater than `k`, in order.
  unfoldable pub iter_from : K → TreeMap K V → List (K × V)
  iter_from k [] = []
  iter_from k ((j, w) ∷ m) = if o.lt k j then (j, w) ∷ iter_from k m else iter_from k m

module _ {K V : Type 0} where
  -- How many entries have a key that passes the test.
  unfoldable pub count : (K → Bool) → TreeMap K V → ℕ
  count p [] = 0
  count p ((j, w) ∷ m) = (if p j then 1 else 0) + count p m

module _ {K : Type 0} ⦃o : Ord K⦄ {V : Type 0} where
  abbrev pub Above : K → TreeMap K V → Type 0
  Above k [] = Unit
  Above k ((j, w) ∷ m) = (o.lt k j ≡ true) × Above k m

  abbrev pub Sorted : TreeMap K V → Type 0
  Sorted [] = Unit
  Sorted ((j, w) ∷ m) = Above j m × Sorted m
