-- ===== src/Community/Closed/Classes.antt =====
-- The classes of the closed community contract (contracts/community-sbt/src/lib.rs): the invariant
-- of the contract, and the calls of its admins.
use i_am_human.Base.{
  ◌+◌, ◌≤◌, ◌<◌, ◌≡◌, Bool, true, false, none, some, contains, arith, is_some, ◌>>=◌, Option-cases,
  inl, inr, Ensures, Ensures-assoc, Ensures-gets, Ensures-require, Ensures-expect, Returns,
  Returns-assoc, Returns-gets, Returns-require, Returns-expect,
}
use i_am_human.Near.{AccountId, Env}
use i_am_human.Near.Words.{u64_mod, add_u64}
use i_am_human.Near.Keys.{ℕ_key}
use i_am_human.Near.Lookup.{insert}
use i_am_human.Sbt.{ClassId, ClassMetadata}
use i_am_human.Community.Vectors.{listed}
use i_am_human.Community.Closed.{ClassMinters, Contract, Call, assert_admin}

-- The account is in the list of admins.
abbrev pub is_admin : AccountId → Contract → Bool
is_admin account s = elim s.admins [ none ↦ false | some admins ↦ contains account admins ]

module _ {B : Type 0} (Q : B → Contract → Type 0) where
  pub assert_admin-Ensures :
      (env : Env) (k : Unit {0} → Call B) (s : Contract)
      → (is_admin env.predecessor s ≡ true → Ensures Q (k tt s))
      → Ensures Q ((assert_admin env >>= k) s)
  unfolding assert_admin
  assert_admin-Ensures env k s h = Ensures-assoc _ _ _ _ _ (
      Ensures-gets _ _ _ _ (
        Ensures-assoc _ _ _ _ _ (
          Ensures-expect _ _ _ _ _
            λ admins e. Ensures-require _ _ _ _ _ λ a. h (ground (arith, e, a)))))

  pub assert_admin-Returns :
      (env : Env) (k : Unit {0} → Call B) (s : Contract)
      → is_admin env.predecessor s ≡ true
      → Returns Q (k tt s)
      → Returns Q ((assert_admin env >>= k) s)
  unfolding assert_admin
  assert_admin-Returns env k s h r = Returns-assoc _ _ _ _ _ (
      Returns-gets _ _ _ _ (
        Returns-assoc _ _ _ _ _ (elim (Option-cases s.admins) [
          | inl e ↦ absurd (ground (arith, e, h))
          | inr (admins, e) ↦
              Returns-expect _ _ _ _ _ admins e (Returns-require _ _ _ _ _ (ground (arith, e, h)) r)
        ])))

-- The classes are those from 1 up to `next_class`, and no minter is listed twice for a class.
pub record IsValid (s : Contract) : Type 0 where
  pub positive : 1 ≤ s.next_class
  pub numbered : (c : ClassId) → is_some (s.classes c) ≡ true → (1 ≤ c) × (c < s.next_class)
  pub enabled : (c : ClassId) → 1 ≤ c → c < s.next_class → is_some (s.classes c) ≡ true
  pub distinct :
      (c : ClassId) (cm : ClassMinters) (a : AccountId)
      → s.classes c ≡ some cm
      → listed a cm.minters ≤ 1

-- Every class that was enabled is.
abbrev pub Keeps : Contract → Contract → Type 0
Keeps s t =
    (s.next_class ≤ t.next_class)
    × ((c : ClassId) → is_some (s.classes c) ≡ true → is_some (t.classes c) ≡ true)

abbrev pub with_class : ClassId → ClassMinters → Contract → Contract
with_class class c s = record s { classes = insert class c s.classes }

-- A change of a class.
pub with_class-IsValid :
    (class : ClassId) (c d : ClassMinters) (s : Contract)
    → IsValid s
    → s.classes class ≡ some c
    → ((a : AccountId) → listed a c.minters ≤ 1 → listed a d.minters ≤ 1)
    → IsValid (with_class class d s) × Keeps s (with_class class d s)
with_class-IsValid class c d s v h k = (
  record {
    positive = v.positive;
    numbered = λ b e. ground (arith, v.numbered b, h, e);
    enabled = λ b l r. ground (arith, v.enabled b, l, r);
    distinct = λ b cm a e. ground (arith, v.distinct b cm a, k a (v.distinct class c a h), e);
  },
  (omega arith, λ b e. ground (arith, e)),
)

pub new_class-IsValid :
    (cm : ClassMinters) (metadata : ClassMetadata) (s : Contract)
    → IsValid s
    → s.next_class + 1 < u64_mod
    → ((a : AccountId) → listed a cm.minters ≤ 1)
    → IsValid (record s {
      next_class = add_u64 s.next_class 1;
      classes = insert s.next_class cm s.classes;
      class_metadata = insert s.next_class metadata s.class_metadata;
    })
      × (add_u64 s.next_class 1 ≡ s.next_class + 1)
      × (s.classes s.next_class ≡ none)
new_class-IsValid cm metadata s v room k = (
  record {
    positive = omega (arith, v.positive, room);
    numbered = λ b e. ground (arith, v.numbered b, v.positive, room, e);
    enabled = λ b l r. ground (arith, v.enabled b, l, r, room);
    distinct = λ b c a e. ground (arith, v.distinct b c a, k a, e);
  },
  omega (arith, room),
  ground (arith, v.numbered s.next_class),
)
