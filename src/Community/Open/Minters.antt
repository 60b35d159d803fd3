-- ===== src/Community/Open/Minters.antt =====
-- The minters of a class of the open community contract (contracts/community-open/src/lib.rs).
use i_am_human.Base.{
  ℕ, zero, suc, ◌≢◌, ◌+◌, ◌-◌, ◌≡◌, refl, ap, subst, ◌∙◌, Bool, true, false, not, ◌&&◌, List, [],
  ◌∷◌, some, contains, is_ok, arith, if◌then◌else◌, ◌⊎◌, ◌==◌, ok, Bool-cases, Option-cases, inl,
  inr, SucceedsIf, SucceedsIf-assoc, SucceedsIf-gets, SucceedsIf-attempt, SucceedsIf-only,
  SucceedsIf-last, SucceedsIf-pure,
}
use i_am_human.Near.{AccountId, Env}
use i_am_human.Near.Keys.{ℕ_key}
use i_am_human.Near.Lookup.{insert}
use i_am_human.Sbt.{ClassId, TokenMetadata}
use i_am_human.Community.Vectors.{
  listed, position, listed-append, listed-swap_remove, position-listed, contains-listed,
}
use i_am_human.Community.Loops.{all_allowed, tokens_of, is_paid, mint_of, mint_many-ok}
use i_am_human.Community.Open.{
  ClassMinters, Contract, Listing, add_one, remove_one, class_info_admin, class_info_minter,
  add_each, remove_each, add_minters, remove_minters, sbt_mint_many,
}

-- `ok` tells whether the list of minters changed.
abbrev IsChange : Listing → Listing → Type 0
IsChange st u = (u.1 ≡ true) ⊎ (u ≡ st)

IsChange-trans : (st t u : Listing) → IsChange st t → IsChange t u → IsChange st u
IsChange-trans st t u h (inl e) = inl e
IsChange-trans st t u (inl h) (inr e) = inl (ap (λ (x : Listing). x.1) e ∙ h)
IsChange-trans st t u (inr h) (inr e) = inr (e ∙ h)

-- One round of the loops: what it does to the number of entries of an account.
remove_one-listed :
    (a m : AccountId) (st : Listing)
    → (listed a (remove_one m st).0 ≡ listed a st.0 - (if m == a then 1 else 0))
      × IsChange st (remove_one m st)
unfolding remove_one
remove_one-listed a m st = elim (Option-cases (position m st.0)) [
  | inl e ↦ rw (remove_one, e) (ground (arith, position-listed m st.0 e), inr refl)
  | inr (i, e) ↦ rw (remove_one, e) (omega (arith, listed-swap_remove a m i st.0 e), inl refl)
]

add_one-listed :
    (a m : AccountId) (st : Listing)
    → (listed a (add_one m st).0
        ≡ listed a st.0 + (if m == a && not (contains a st.0) then 1 else 0))
      × IsChange st (add_one m st)
unfolding add_one
add_one-listed a m st = elim (Bool-cases (contains m st.0)) [
  | inl e ↦ rw (add_one, e) (ground (arith, e), inr refl)
  | inr e ↦ rw (add_one, e) (ground (arith, e, listed-append a st.0 (m ∷ [])), inl refl)
]

-- The loops.
remove_each-listed :
    (a : AccountId) (ms : List AccountId) (st : Listing)
    → (listed a (remove_each ms st).0 ≡ listed a st.0 - listed a ms)
      × IsChange st (remove_each ms st)
unfolding remove_each
remove_each-listed a [] st = (omega arith, inr refl)
remove_each-listed a (m ∷ ms) st =
    let one = remove_one-listed a m st in
    let rest = remove_each-listed a ms (remove_one m st) in
    (omega (arith, one.0, rest.0), IsChange-trans _ _ _ one.1 rest.1)

-- How often an account is listed after it was added, if it is in the list to add.
abbrev pub added : Bool → ℕ → ℕ
added true zero = 1
added true (suc n) = suc n
added false n = n

add_each-listed :
    (a : AccountId) (ms : List AccountId) (st : Listing)
    → (listed a (add_each ms st).0 ≡ added (contains a ms) (listed a st.0))
      × IsChange st (add_each ms st)
unfolding add_each
add_each-listed a [] st = (refl, inr refl)
add_each-listed a (m ∷ ms) st =
    let one = add_one-listed a m st in
    let rest = add_each-listed a ms (add_one m st) in
    (ground (arith, one.0, rest.0, contains-listed a st.0), IsChange-trans _ _ _ one.1 rest.1)

-- The class of `s` with other minters, and the other classes as they are.
abbrev pub Relisted :
    (List AccountId → List AccountId → Type 0) → ClassId → Contract → Contract → Type 0
Relisted R class s t =
    ((c : ClassMinters) × (ms : List AccountId) × (s.classes class ≡ some c)
      × (t.classes class ≡ some (record c { minters = ms }))
      × R c.minters ms)
    × ((j : ClassId) → j ≢ class → t.classes j ≡ s.classes j)

class_info_admin_lem :
    (env : Env) (s : Contract) (class : ClassId) (c : ClassMinters)
    → class_info_admin env s class ≡ ok c
    → s.classes class ≡ some c
unfolding class_info_admin
class_info_admin_lem env s class c h = ground (arith, h)

module _ (R : List AccountId → List AccountId → Type 0) (class : ClassId) (s : Contract)
    (c : ClassMinters) (h : s.classes class ≡ some c) where
  Relisted-changed :
      (ms : List AccountId)
      → R c.minters ms
      → Relisted R class s
          (record s { classes = insert class (record c { minters = ms }) s.classes })
  Relisted-changed ms r = ((c, ms, h, ground arith, r), λ j n. ground (arith, n))

  Relisted-same :
      (u : Listing)
      → IsChange (c.minters, false) u
      → u.1 ≡ false
      → R c.minters u.0
      → Relisted R class s s
  Relisted-same u (inl e) f r = absurd (ground (arith, e, f))
  Relisted-same u (inr e) f r =
      ((c, c.minters, h, h, subst (R c.minters) (ap (λ (x : Listing). x.0) e) r), λ j n. refl)

-- Only a class admin can add and remove minters, and it always can. `add_minters` lists each account
-- of its argument, once if it was not listed. `remove_minters` takes out one entry of an account for
-- each time that it is in the argument. Neither changes another class, or anything else of its own.
pub minters-listed :
    (env : Env) (class : ClassId) (ms : List AccountId) (s : Contract)
    → SucceedsIf
        (is_ok (class_info_admin env s class))
        (λ _ t.
          Relisted
            (λ before after.
              (a : AccountId) → listed a after ≡ added (contains a ms) (listed a before))
            class
            s
            t)
        (add_minters env class ms s)
      × SucceedsIf
          (is_ok (class_info_admin env s class))
          (λ _ t.
            Relisted
              (λ before after. (a : AccountId) → listed a after ≡ listed a before - listed a ms)
              class
              s
              t)
          (remove_minters env class ms s)
unfolding add_minters remove_minters
minters-listed env class ms s = (
  SucceedsIf-only _ _ _ (
      SucceedsIf-assoc _ _ _ _ _ _ (
        SucceedsIf-gets _ _ _ _ _ (
          SucceedsIf-attempt _ _ _ _ _ λ c h. elim (Bool-cases (add_each ms (c.minters, false)).1) [
            | inl e ↦ rw e (
                SucceedsIf-last _ _ _ _ (
                  Relisted-changed _ class s c (class_info_admin_lem env s class c h) _
                    λ a. (add_each-listed a ms (c.minters, false)).0))
            | inr e ↦ rw e (
                SucceedsIf-pure _ _ _ _ (
                  Relisted-same _ class s c (class_info_admin_lem env s class c h) _
                    (add_each-listed 0 ms (c.minters, false)).1 e
                    λ a. (add_each-listed a ms (c.minters, false)).0))
          ]))),
  SucceedsIf-only _ _ _ (
      SucceedsIf-assoc _ _ _ _ _ _ (
        SucceedsIf-gets _ _ _ _ _ (
          SucceedsIf-attempt _ _ _ _ _ λ c h.
            elim (Bool-cases (remove_each ms (c.minters, false)).1) [
              | inl e ↦ rw e (
                  SucceedsIf-last _ _ _ _ (
                    Relisted-changed _ class s c (class_info_admin_lem env s class c h) _
                      λ a. (remove_each-listed a ms (c.minters, false)).0))
              | inr e ↦ rw e (
                  SucceedsIf-pure _ _ _ _ (
                    Relisted-same _ class s c (class_info_admin_lem env s class c h) _
                      (remove_each-listed 0 ms (c.minters, false)).1 e
                      λ a. (remove_each-listed a ms (c.minters, false)).0))
            ]))),
)

-- `sbt_mint_many` succeeds exactly if the caller is a minter or an admin of the class of every token
-- and the attached deposit pays for the tokens; the registry is then called as by the closed
-- contract, and the contract does not change.
pub sbt_mint_many-open :
    (env : Env) (spec : List (AccountId × List TokenMetadata)) (s : Contract)
    → SucceedsIf
        (all_allowed (class_info_minter env s) (tokens_of spec) && is_paid env spec)
        (λ p t. (p ≡ mint_of (class_info_minter env s) env spec) × (t ≡ s))
        (sbt_mint_many env spec s)
unfolding sbt_mint_many
sbt_mint_many-open env spec s = mint_many-ok (class_info_minter env s) env spec s
