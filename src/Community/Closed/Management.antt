-- ===== src/Community/Closed/Management.antt =====
-- The calls of the admins of the closed community contract (contracts/community-sbt/src/lib.rs).
use i_am_human.Base.{
  ℕ, ◌+◌, ◌≤◌, ◌<◌, ◌≡◌, refl, ap, Bool, true, List, [], ◌∷◌, Option, some, contains, arith, pure,
  ◌>>=◌, Bool-cases, Option-cases, inl, inr, Ensures, Ensures-assoc, Ensures-bind, Ensures-gets,
  Ensures-require, Ensures-expect, Ensures-modify, Ensures-last, Ensures-pure,
}
use i_am_human.Near.{AccountId, Env}
use i_am_human.Near.Words.{u64_mod}
use i_am_human.Near.Keys.{ℕ_key}
use i_am_human.Sbt.{ClassId, ClassMetadata, ContractMetadata}
use i_am_human.Community.Vectors.{
  ◌!=◌, listed, position, listed-push_new, listed-swap_remove, contains-listed,
}
use i_am_human.Community.Closed.{
  ClassMinters, Contract, Call, set_requires_iah, set_max_ttl, set_sbt_class_metadata,
  enable_next_class, authorize, unauthorize, set_admin_list, update_metadata,
}
use i_am_human.Community.Closed.Classes.{
  is_admin, assert_admin-Ensures, IsValid, Keeps, with_class, with_class-IsValid, new_class-IsValid,
}

-- The calls of an admin that change the contract, with their arguments.
pub data Management : Type 0 where
  requiring : ClassId → Bool → Management
  limiting : ClassId → ℕ → Management
  describing : ClassId → ClassMetadata → Management
  enabling : Bool → AccountId → ℕ → ClassMetadata → Management
  authorizing unauthorizing : ClassId → AccountId → Management
  appointing : List AccountId → Management
  renaming : ContractMetadata → Management

unfoldable pub manage : Env → Management → Call (Unit {0})
manage env (requiring class b) = set_requires_iah env class b
manage env (limiting class ttl) = set_max_ttl env class ttl
manage env (describing class metadata) = set_sbt_class_metadata env class metadata
manage env (enabling b minter ttl metadata) =
    enable_next_class env b minter ttl metadata >>= λ _. pure tt
manage env (authorizing class minter) = authorize env class minter
manage env (unauthorizing class minter) = unauthorize env class minter
manage env (appointing admins) = set_admin_list env admins
manage env (renaming metadata) = update_metadata env metadata

module _ (env : Env) (s : Contract) (v : IsValid s) where
  abbrev Managed : Unit {0} → Contract → Type 0
  Managed _ t = (is_admin env.predecessor s ≡ true) × IsValid t × Keeps s t

  -- What the other fields are does not matter.
  same-classes :
      (t : Contract)
      → is_admin env.predecessor s ≡ true
      → t.classes ≡ s.classes
      → t.next_class ≡ s.next_class
      → Managed tt t
  same-classes t a e n =
      let at : (c : ClassId) → t.classes c ≡ s.classes c =
        λ c. ap (λ (m : ClassId → Option ClassMinters). m c) e in
      (
        a,
        record {
          positive = omega (arith, v.positive, n);
          numbered = λ c h. ground (arith, v.numbered c, at c, n, h);
          enabled = λ c l r. ground (arith, v.enabled c, at c, n, l, r);
          distinct = λ c cm x h. ground (arith, v.distinct c cm x, at c, h);
        },
        (omega (arith, n), λ c h. ground (arith, at c, h)),
      )

  put-Managed :
      (class : ClassId) (c d : ClassMinters)
      → is_admin env.predecessor s ≡ true
      → s.classes class ≡ some c
      → ((a : AccountId) → listed a c.minters ≤ 1 → listed a d.minters ≤ 1)
      → Managed tt (with_class class d s)
  put-Managed class c d a h k = let w = with_class-IsValid class c d s v h k in (a, w.0, w.1)

  unchanged : is_admin env.predecessor s ≡ true → Managed tt s
  unchanged a = same-classes s a refl refl

  requiring-Managed :
      (class : ClassId) (b : Bool) → Ensures Managed (set_requires_iah env class b s)
  unfolding set_requires_iah
  requiring-Managed class b = assert_admin-Ensures _ env _ s λ a. Ensures-assoc _ _ _ _ _ (
      Ensures-gets _ _ _ _ (
        Ensures-expect _ _ _ _ _ λ c h. elim (Bool-cases (c.requires_iah != b)) [
          | inl e ↦ rw e (Ensures-last _ _ _ _ (put-Managed class c _ a h λ x k. k))
          | inr e ↦ rw e (Ensures-pure _ _ _ _ (unchanged a))
        ]))

  limiting-Managed : (class : ClassId) (ttl : ℕ) → Ensures Managed (set_max_ttl env class ttl s)
  unfolding set_max_ttl
  limiting-Managed class ttl = assert_admin-Ensures _ env _ s λ a. Ensures-assoc _ _ _ _ _ (
      Ensures-gets _ _ _ _
        (Ensures-expect _ _ _ _ _ λ c h. Ensures-last _ _ _ _ (put-Managed class c _ a h λ x k. k)))

  describing-Managed :
      (class : ClassId) (metadata : ClassMetadata)
      → Ensures Managed (set_sbt_class_metadata env class metadata s)
  unfolding set_sbt_class_metadata
  describing-Managed class metadata = assert_admin-Ensures _ env _ s λ a.
      Ensures-gets _ _ _ _
        (Ensures-require _ _ _ _ _ λ _. Ensures-last _ _ _ _ (same-classes _ a refl refl))

  enabling-Managed :
      (b : Bool) (minter : AccountId) (ttl : ℕ) (metadata : ClassMetadata)
      → s.next_class + 1 < u64_mod
      → Ensures (λ _ t. Managed tt t) (enable_next_class env b minter ttl metadata s)
  unfolding enable_next_class
  enabling-Managed b minter ttl metadata room = assert_admin-Ensures _ env _ s λ a.
      Ensures-require _ _ _ _ _ λ _. Ensures-gets _ _ _ _ (
        Ensures-modify _ _ _ _ (
          Ensures-modify _ _ _ _ (
            Ensures-modify _ _ _ _ (
              Ensures-pure _ _ _ _ (
                let n =
                  new_class-IsValid
                    (record { requires_iah = b; minters = minter ∷ []; max_ttl = ttl }) metadata s v
                    room λ x. ground arith in
                (a, n.0, (omega (arith, n.1), λ c e. ground (arith, e))))))))

  authorizing-Managed :
      (class : ClassId) (minter : AccountId) → Ensures Managed (authorize env class minter s)
  unfolding authorize
  authorizing-Managed class minter = assert_admin-Ensures _ env _ s λ a. Ensures-assoc _ _ _ _ _ (
      Ensures-gets _ _ _ _ (
        Ensures-expect _ _ _ _ _ λ c h. elim (Bool-cases (contains minter c.minters)) [
          | inl e ↦ rw e (Ensures-pure _ _ _ _ (unchanged a))
          | inr e ↦ rw e (
              Ensures-last _ _ _ _ (
                put-Managed class c _ a h λ x k. ground (
                  arith,
                  k,
                  e,
                  listed-push_new x minter c.minters,
                  contains-listed minter c.minters,
                )))
        ]))

  unauthorizing-Managed :
      (class : ClassId) (minter : AccountId) → Ensures Managed (unauthorize env class minter s)
  unfolding unauthorize
  unauthorizing-Managed class minter = assert_admin-Ensures _ env _ s λ a. Ensures-assoc _ _ _ _ _ (
      Ensures-gets _ _ _ _ (
        Ensures-expect _ _ _ _ _ λ c h. elim (Option-cases (position minter c.minters)) [
          | inl e ↦ rw e (Ensures-pure _ _ _ _ (unchanged a))
          | inr (i, e) ↦ rw e (
              Ensures-last _ _ _ _ (
                put-Managed class c _ a h
                  λ x k. omega (arith, listed-swap_remove x minter i c.minters e, k)))
        ]))

-- In a valid contract, while class numbers fit in `u64`, every call of `manage` that succeeds comes
-- from an account in the list of admins and leaves a valid contract, in which every class that was
-- enabled is enabled and the next class's number is not smaller.
pub manage-IsValid :
    (env : Env) (call : Management) (s : Contract)
    → IsValid s
    → s.next_class + 1 < u64_mod
    → Ensures
        (λ _ t. (is_admin env.predecessor s ≡ true) × IsValid t × Keeps s t)
        (manage env call s)
unfolding manage set_admin_list update_metadata
manage-IsValid env (requiring class b) s v room = requiring-Managed env s v class b
manage-IsValid env (limiting class ttl) s v room = limiting-Managed env s v class ttl
manage-IsValid env (describing class metadata) s v room = describing-Managed env s v class metadata
manage-IsValid env (enabling b minter ttl metadata) s v room =
    Ensures-bind _ _ _ _ _ (enabling-Managed env s v b minter ttl metadata room)
      λ _ t h. Ensures-pure _ _ _ _ h
manage-IsValid env (authorizing class minter) s v room = authorizing-Managed env s v class minter
manage-IsValid env (unauthorizing class minter) s v room =
    unauthorizing-Managed env s v class minter
manage-IsValid env (appointing admins) s v room =
    assert_admin-Ensures _ env _ s λ a. Ensures-last _ _ _ _ (same-classes env s v _ a refl refl)
manage-IsValid env (renaming metadata) s v room =
    assert_admin-Ensures _ env _ s λ a. Ensures-last _ _ _ _ (same-classes env s v _ a refl refl)
