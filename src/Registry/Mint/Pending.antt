-- ===== src/Registry/Mint/Pending.antt =====
-- The bookkeeping of a mint in progress: supplies that are counted but not yet stored.
use i_am_human.Base.{
  ℕ, ◌+◌, ◌%◌, ◌≡◌, true, ◌||◌, Option, none, some, List, [], ◌∷◌, unwrap_or, is_some,
  if◌then◌else◌, arith, ◌==◌,
}
use i_am_human.Near.Words.{u64_mod, add_u64}
use i_am_human.Sbt.{ClassId}
use i_am_human.Registry.Invariant.{Counts}
use i_am_human.Registry.Tally.{tally, tallied}

-- `stored` and `pending` together count `n`, modulo 2 ^ 64.
abbrev pub Owed : Option ℕ → Option ℕ → ℕ → Type 0
Owed stored none n = Counts stored n
Owed none (some p) n = p % u64_mod ≡ n % u64_mod
Owed (some m) (some p) n = (m + p) % u64_mod ≡ n % u64_mod

-- One more pending, for the same or for another key.
pub Owed-step :
    (stored pending pending' : Option ℕ) (n : ℕ)
    → Owed stored pending n
    → unwrap_or 0 pending' % u64_mod ≡ (unwrap_or 0 pending + 1) % u64_mod
    → is_some pending' ≡ true
    → Owed stored pending' (1 + n)
Owed-step none none (some q) n h e i = ground arith
Owed-step (some m) none (some q) n h e i = ground arith
Owed-step none (some p) (some q) n h e i = omega arith
Owed-step (some m) (some p) (some q) n h e i = omega arith
Owed-step stored pending none n h e i = cc

pub Owed-same :
    (stored pending pending' : Option ℕ) (n : ℕ)
    → Owed stored pending n
    → unwrap_or 0 pending' % u64_mod ≡ unwrap_or 0 pending % u64_mod
    → is_some pending' ≡ is_some pending
    → Owed stored pending' n
Owed-same stored none none n h e i = h
Owed-same none (some p) (some q) n h e i = omega arith
Owed-same (some m) (some p) (some q) n h e i = omega arith
Owed-same stored none (some q) n h e i = cc
Owed-same stored (some p) none n h e i = cc

-- What is pending is stored by an addition.
pub Owed-store :
    (stored : Option ℕ) (p n : ℕ)
    → Owed stored (some p) n
    → Counts (some (add_u64 (unwrap_or 0 stored) p)) n
Owed-store none p n h = omega arith
Owed-store (some m) p n h = omega arith

pub tallied-tally :
    (c d : ClassId) (m : List (ClassId × ℕ))
    → (unwrap_or 0 (tallied c (tally d m)) % u64_mod
        ≡ (unwrap_or 0 (tallied c m) + (if c == d then 1 else 0)) % u64_mod)
      × (is_some (tallied c (tally d m)) ≡ (c == d || is_some (tallied c m)))
unfolding tallied tally
tallied-tally c d [] = (ground arith, ground arith)
tallied-tally c d ((e, n) ∷ m) =
    let h = tallied-tally c d m in (ground (arith, h.0, h.1), ground (arith, h.0, h.1))
