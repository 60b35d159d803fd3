-- ===== src/Near/Lookup.antt =====
-- `near_sdk::collections::LookupMap`, `UnorderedMap` and `UnorderedSet` as the maps and sets that
-- they store, where the program does not iterate over them.
use i_am_human.Base.{
  ◌≡◌, ◌≢◌, refl, sym, ap, ◌∙◌, fun_ext, Bool, true, false, Option, none, some, if◌then◌else◌,
  Bool-cases, inl, inr,
}
use i_am_human.Near.Keys.{Eq, ◌==◌}

abbrev pub LookupMap : Type 0 → Type 0 → Type 0
LookupMap K V = K → Option V

abbrev pub LookupSet : Type 0 → Type 0
LookupSet K = K → Bool

module _ {K : Type 0} where
  abbrev pub empty : {V : Type 0} → LookupMap K V
  empty k = none

  abbrev pub empty_set : LookupSet K
  empty_set k = false

module _ {K : Type 0} ⦃e : Eq K⦄ where
  abbrev pub insert : {V : Type 0} → K → V → LookupMap K V → LookupMap K V
  insert k v m j = if k == j then some v else m j

  abbrev pub remove : {V : Type 0} → K → LookupMap K V → LookupMap K V
  remove k m j = if k == j then none else m j

  abbrev pub add : K → LookupSet K → LookupSet K
  add k m j = if k == j then true else m j

  abbrev pub drop : K → LookupSet K → LookupSet K
  drop k m j = if k == j then false else m j

  pub eq_refl : (k : K) → (k == k) ≡ true
  eq_refl k = (e.eq_iff k k).1 refl

  pub eq_ne : (k j : K) → k ≢ j → (k == j) ≡ false
  eq_ne k j h = elim (Bool-cases (k == j)) [ inl t ↦ absurd (h ((e.eq_iff k j).0 t)) | inr f ↦ f ]

  -- To take out a new member is to undo its coming in.
  pub drop-add : (k : K) (m : LookupSet K) → m k ≡ false → drop k (add k m) ≡ m
  drop-add k m h = fun_ext λ j. elim (Bool-cases (k == j)) [
    | inl t ↦ rw t (sym h ∙ ap m ((e.eq_iff k j).0 t))
    | inr f ↦ rw f refl
  ]
