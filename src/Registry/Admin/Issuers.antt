-- ===== src/Registry/Admin/Issuers.antt =====
-- The registry of issuers: `_add_sbt_issuer` and `new` (contracts/registry/src/lib.rs).
use i_am_human.Base.{
  ◌+◌, ◌≤◌, ◌<◌, ◌≡◌, refl, ◌↔◌, Bool, true, not, some, is_some, List, arith, Bool-cases, inl, inr,
  Ensures, Ensures-require, Ensures-pure, Ensures-bind,
}
use i_am_human.Near.{AccountId, Env}
use i_am_human.Near.Words.{u32_mod}
use i_am_human.Near.Keys.{ℕ_key}
use i_am_human.Sbt.{ClassId}
use i_am_human.Registry.{Contract}
use i_am_human.Registry.Keys.{IssuerId}
use i_am_human.Registry.Rules.{Ensures-assert_authority}
use i_am_human.Registry.Admin.{add_sbt_issuer, admin_add_sbt_issuer, new, blank}

-- The two maps are inverse, and the numbers given are from 1 to below the next.
pub record IssuersValid (s : Contract) : Type 0 where
  pub inverse :
      (a : AccountId) (i : IssuerId) → (s.sbt_issuers a ≡ some i) ↔ (s.issuer_id_map i ≡ some a)
  pub given :
      (a : AccountId) (i : IssuerId) → s.sbt_issuers a ≡ some i → (1 ≤ i) × (i < s.next_issuer_id)
  pub next : 1 ≤ s.next_issuer_id

-- What adding an issuer does: it has a number afterwards, and no one's number changed.
pub record Added (a : AccountId) (r : Bool) (s t : Contract) : Type 0 where
  pub valid : IssuersValid t
  pub registered : is_some (t.sbt_issuers a) ≡ true
  pub reported : r ≡ not (is_some (s.sbt_issuers a))
  pub kept : (b : AccountId) (i : IssuerId) → s.sbt_issuers b ≡ some i → t.sbt_issuers b ≡ some i

add_sbt_issuer-Added :
    (a : AccountId) (s : Contract)
    → IssuersValid s
    → s.next_issuer_id + 1 < u32_mod
    → Ensures (λ r t. Added a r s t) (add_sbt_issuer a s)
unfolding add_sbt_issuer
add_sbt_issuer-Added a s v room = elim (Bool-cases (is_some (s.sbt_issuers a))) [
  | inl e ↦ rw e (
      Ensures-pure _ _ _ _
        (record { valid = v; registered = e; reported = rw e refl; kept = λ b i h. h }))
  | inr e ↦ rw e (
      Ensures-pure _ _ _ _ (record {
        valid = record {
          inverse = λ b i. ground (
            arith,
            v.inverse b i,
            v.given b i,
            v.inverse a i,
            v.inverse b s.next_issuer_id,
            v.given b s.next_issuer_id,
          );
          given = λ b i. ground (arith, v.given b i, v.next);
          next = ground (arith, v.next);
        };
        registered = ground arith;
        reported = rw e refl;
        kept = λ b i. ground arith;
      }))
]

-- In a contract with valid issuers, while issuer numbers fit in `u32`, a successful
-- `admin_add_sbt_issuer` keeps accounts and numbers in step; afterwards the account has a number,
-- the result tells whether it had none before, and no number has changed.
pub admin_add_sbt_issuer-Added :
    (env : Env) (a : AccountId) (s : Contract)
    → IssuersValid s
    → s.next_issuer_id + 1 < u32_mod
    → Ensures (λ r t. Added a r s t) (admin_add_sbt_issuer env a s)
unfolding admin_add_sbt_issuer
admin_add_sbt_issuer-Added env a s v room =
    Ensures-assert_authority _ env _ _ λ _. add_sbt_issuer-Added a s v room

-- A successful `new` makes a contract with valid issuers, the IAH issuer among them.
pub new-IssuersValid :
    (authority iah_issuer : AccountId) (classes : List ClassId) (flaggers : List AccountId)
    → Ensures
        (λ _ t. IssuersValid t × (is_some (t.sbt_issuers iah_issuer) ≡ true))
        (new authority iah_issuer classes flaggers)
unfolding new
new-IssuersValid authority iah_issuer classes flaggers = Ensures-require _ _ _ _ _ λ _.
    Ensures-bind _ _ _ _ _
      (add_sbt_issuer-Added iah_issuer (blank authority iah_issuer classes flaggers)
        (record { inverse = λ a i. ground arith; given = λ a i. ground arith; next = omega arith })
        (omega arith))
      λ r t w. Ensures-pure _ _ _ _ (w.valid, w.registered)
