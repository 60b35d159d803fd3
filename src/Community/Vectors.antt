-- ===== src/Community/Vectors.antt =====
-- `Vec<AccountId>` as a list of minters (contracts/community-sbt, contracts/community-open).
use i_am_human.Base.{
  ℕ, zero, suc, ◌+◌, ◌-◌, ◌≤◌, ◌≡◌, refl, Bool, true, false, Option, none, some, List, [], ◌∷◌,
  ◌++◌, contains, length, ap, Option-cases, inl, inr, arith, if◌then◌else◌, ◌==◌, not,
}

-- `!=` on flags.
infix 50 ◌!=◌
abbrev pub ◌!=◌ : Bool → Bool → Bool
true != b = not b
false != b = b

-- `iter().position(|x| x == &m)`
abbrev pub position : ℕ → List ℕ → Option ℕ
position m [] = none
position m (x ∷ xs) =
    if x == m
    then some 0
    else (let rest = position m xs in elim rest [ none ↦ none | some i ↦ some (suc i) ])

-- The last of `x ∷ xs`, and the others.
abbrev pub last : ℕ → List ℕ → ℕ
last x [] = x
last x (y ∷ ys) = last y ys

abbrev pub init : ℕ → List ℕ → List ℕ
init x [] = []
init x (y ∷ ys) = x ∷ init y ys

-- `Vec::swap_remove`, for an index in range.
abbrev pub swap_remove : ℕ → List ℕ → List ℕ
swap_remove i [] = []
swap_remove zero (x ∷ []) = []
swap_remove zero (x ∷ y ∷ ys) = last y ys ∷ init y ys
swap_remove (suc i) (x ∷ xs) = x ∷ swap_remove i xs

-- `if !minters.contains(&m) { minters.push(m) }`
abbrev pub push_new : ℕ → List ℕ → List ℕ
push_new m xs = if contains m xs then xs else xs ++ m ∷ []

-- `if let Some(idx) = minters.iter().position(..) { minters.swap_remove(idx) }`
abbrev pub remove_first : ℕ → List ℕ → List ℕ
remove_first m xs = elim (position m xs) [ none ↦ xs | some i ↦ swap_remove i xs ]

-- How often an account is listed.
abbrev pub listed : ℕ → List ℕ → ℕ
listed a [] = 0
listed a (x ∷ xs) = (if x == a then 1 else 0) + listed a xs

pub contains-listed :
    (a : ℕ) (xs : List ℕ)
    → (contains a xs ≡ true → 1 ≤ listed a xs) × (contains a xs ≡ false → listed a xs ≡ 0)
contains-listed a [] = ground arith
contains-listed a (x ∷ xs) = ground (arith, contains-listed a xs)

-- An account is contained exactly if it is listed.
pub listed-contains : (a : ℕ) (xs : List ℕ) → 1 ≤ listed a xs → contains a xs ≡ true
listed-contains a xs h = ground (arith, contains-listed a xs, h)

pub contains_none : (a : ℕ) (xs : List ℕ) → listed a xs ≡ 0 → contains a xs ≡ false
contains_none a xs h = ground (arith, contains-listed a xs, h)

pub listed-append : (a : ℕ) (xs ys : List ℕ) → listed a (xs ++ ys) ≡ listed a xs + listed a ys
listed-append a [] ys = omega arith
listed-append a (x ∷ xs) ys = omega (arith, listed-append a xs ys)

pub listed-push_new :
    (a m : ℕ) (xs : List ℕ)
    → listed a (push_new m xs)
      ≡ (if contains m xs then listed a xs else listed a xs + (if m == a then 1 else 0))
listed-push_new a m xs = ground (arith, listed-append a xs (m ∷ []))

listed-last : (a x : ℕ) (xs : List ℕ) → listed a (last x xs ∷ init x xs) ≡ listed a (x ∷ xs)
listed-last a x [] = refl
listed-last a x (y ∷ ys) = omega (arith, listed-last a y ys)

pub listed-swap_remove :
    (a m i : ℕ) (xs : List ℕ)
    → position m xs ≡ some i
    → listed a (swap_remove i xs) + (if m == a then 1 else 0) ≡ listed a xs
listed-swap_remove a m i [] h = absurd (ground (arith, h))
listed-swap_remove a m zero (x ∷ []) h = ground (arith, h)
listed-swap_remove a m zero (x ∷ y ∷ ys) h = ground (arith, h, listed-last a y ys)
listed-swap_remove a m (suc i) (x ∷ []) h = absurd (ground (arith, h))
listed-swap_remove a m (suc i) (x ∷ y ∷ ys) h = ground (arith, h, listed-swap_remove a m i (y ∷ ys))

pub listed-swap_remove_self :
    (m i : ℕ) (xs : List ℕ) → position m xs ≡ some i → listed m (swap_remove i xs) + 1 ≡ listed m xs
listed-swap_remove_self m i xs h = ground (arith, listed-swap_remove m m i xs h)

pub position-listed : (m : ℕ) (xs : List ℕ) → position m xs ≡ none → listed m xs ≡ 0
position-listed m [] h = refl
position-listed m (x ∷ xs) h = ground (arith, h, position-listed m xs)

-- One entry of the account goes, if there is one.
pub listed-remove_first :
    (a m : ℕ) (xs : List ℕ) → listed a (remove_first m xs) ≡ listed a xs - (if m == a then 1 else 0)
listed-remove_first a m xs = elim (Option-cases (position m xs)) [
  | inl e ↦ rw (remove_first, e) (ground (arith, position-listed m xs e))
  | inr (i, e) ↦ rw (remove_first, e) (omega (arith, listed-swap_remove a m i xs e))
]

pub position-append :
    (m : ℕ) (xs : List ℕ) → contains m xs ≡ false → position m (xs ++ m ∷ []) ≡ some (length xs)
position-append m [] h = ground arith
position-append m (x ∷ xs) h = ground (arith, h, position-append m xs)

pub swap_remove-append : (m : ℕ) (xs : List ℕ) → swap_remove (length xs) (xs ++ m ∷ []) ≡ xs
swap_remove-append m [] = refl
swap_remove-append m (x ∷ xs) = ap (λ l. x ∷ l) (swap_remove-append m xs)

-- What was pushed is what is removed.
pub remove_first-push_new :
    (m : ℕ) (xs : List ℕ) → contains m xs ≡ false → remove_first m (push_new m xs) ≡ xs
remove_first-push_new m xs h =
    rw h (rw (remove_first, position-append m xs h) (swap_remove-append m xs))
