-- ===== src/Registry/Tally.antt =====
-- A local `HashMap` that counts: `entry(k).and_modify(|n| *n += 1).or_insert(1)`.
use i_am_human.Base.{ℕ, ◌+◌, Option, none, some, List, [], ◌∷◌, if◌then◌else◌, unwrap_or, ◌==◌}
use i_am_human.Near.Words.{add_u64}

unfoldable pub tally : ℕ → List (ℕ × ℕ) → List (ℕ × ℕ)
tally k [] = (k, 1) ∷ []
tally k ((j, n) ∷ m) = if k == j then (j, add_u64 n 1) ∷ m else (j, n) ∷ tally k m

-- What the table holds of one key.
unfoldable pub tallied : ℕ → List (ℕ × ℕ) → Option ℕ
tallied k [] = none
tallied k ((j, n) ∷ m) = if k == j then some (n + unwrap_or 0 (tallied k m)) else tallied k m
