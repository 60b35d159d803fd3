-- ===== src/Community/Closed/Minters.antt =====
-- The minters of a class of the closed community contract (contracts/community-sbt/src/lib.rs).
use i_am_human.Base.{
  ℕ, ◌≡◌, refl, ap, ◌∙◌, fun_ext, Bool, true, false, List, [], ◌∷◌, ◌++◌, Option, some, contains,
  arith, if◌then◌else◌, ok, err, ◌>>◌, Bool-cases, Option-cases, inl, inr, Ensures, Ensures-assoc,
  Ensures-gets, Ensures-expect, Ensures-last, Ensures-pure, Returns, Returns-assoc, Returns-bind,
  Returns-gets, Returns-expect, Returns-last, Returns-mono, length, is_ok,
}
use i_am_human.Near.{AccountId, Env}
use i_am_human.Near.Keys.{ℕ_key}
use i_am_human.Near.Lookup.{insert}
use i_am_human.Sbt.{ClassId}
use i_am_human.Community.{not_minter}
use i_am_human.Community.Vectors.{
  position, swap_remove, position-append, swap_remove-append, contains_none, listed-contains,
  position-listed, listed-swap_remove_self, listed-append,
}
use i_am_human.Community.Closed.{ClassMinters, Contract, authorize, unauthorize, class_info_minter}
use i_am_human.Community.Closed.Classes.{
  IsValid, is_admin, assert_admin-Ensures, assert_admin-Returns,
}

abbrev pub with_minters : ClassId → ClassMinters → List AccountId → Contract → Contract
with_minters class c minters s = record s {
  classes = insert class (record c { minters = minters }) s.classes;
}

-- `authorize` of an account that is no minter.
authorize-Returns :
    (env : Env) (class : ClassId) (minter : AccountId) (s : Contract) (c : ClassMinters)
    → is_admin env.predecessor s ≡ true
    → s.classes class ≡ some c
    → contains minter c.minters ≡ false
    → Returns
        (λ _ t. t ≡ with_minters class c (c.minters ++ minter ∷ []) s)
        (authorize env class minter s)
unfolding authorize
authorize-Returns env class minter s c admin h new = assert_admin-Returns _ env _ s admin (
    Returns-assoc _ _ _ _ _
      (Returns-gets _ _ _ _ (Returns-expect _ _ _ _ _ c h (rw new (Returns-last _ _ _ _ refl)))))

-- `unauthorize` of an account that is a minter, at this place.
unauthorize-Returns :
    (env : Env) (class : ClassId) (minter : AccountId) (i : ℕ) (s : Contract) (c : ClassMinters)
    → is_admin env.predecessor s ≡ true
    → s.classes class ≡ some c
    → position minter c.minters ≡ some i
    → Returns
        (λ _ t. t ≡ with_minters class c (swap_remove i c.minters) s)
        (unauthorize env class minter s)
unfolding unauthorize
unauthorize-Returns env class minter i s c admin h at = assert_admin-Returns _ env _ s admin (
    Returns-assoc _ _ _ _ _
      (Returns-gets _ _ _ _ (Returns-expect _ _ _ _ _ c h (rw at (Returns-last _ _ _ _ refl)))))

insert_back :
    (class : ClassId) (c d : ClassMinters) (m : ClassId → Option ClassMinters)
    → m class ≡ some c
    → insert class c (insert class d m) ≡ m
insert_back class c d m h = fun_ext λ j. ground (arith, h)

-- When an admin authorizes an account that is no minter of an enabled class, and then unauthorizes
-- it, both calls succeed and leave the contract as it was, the order of the minters included.
pub authorize-unauthorize :
    (env : Env) (class : ClassId) (minter : AccountId) (s : Contract) (c : ClassMinters)
    → is_admin env.predecessor s ≡ true
    → s.classes class ≡ some c
    → contains minter c.minters ≡ false
    → Returns (λ _ t. t ≡ s) ((authorize env class minter >> unauthorize env class minter) s)
authorize-unauthorize env class minter s c admin h new =
    Returns-bind _ _ _ _ _ (authorize-Returns env class minter s c admin h new) λ _ t e. rw e (
      Returns-mono _ _ _
        (λ _ u k.
          k
          ∙ rw (swap_remove-append minter c.minters)
              (ap (λ m. record s { classes = m }) (insert_back class c _ s.classes h)))
        (unauthorize-Returns env class minter (length c.minters)
          (with_minters class c (c.minters ++ minter ∷ []) s)
          (record c { minters = c.minters ++ minter ∷ [] }) admin (ground arith)
          (position-append minter c.minters new)))

-- Who may mint a class, by its minters.
minting :
    (class : ClassId) (minter : AccountId) (c : ClassMinters) (t : Contract)
    → t.classes class ≡ some c
    → (b : Bool) → contains minter c.minters ≡ b
    → (mint : Env) → mint.predecessor ≡ minter
    → class_info_minter mint t class
      ≡ (if b then ok (c.requires_iah, c.max_ttl) else err not_minter)
unfolding class_info_minter
minting class minter c t h b e mint p = rw (class_info_minter, h, p, e) refl

-- In a valid contract, after a successful `unauthorize` the account cannot mint tokens of the
-- class, and `authorize` makes it able to mint them.
pub unauthorize-bars :
    (env : Env) (class : ClassId) (minter : AccountId) (s : Contract)
    → IsValid s
    → Ensures
        (λ _ t.
          (mint : Env)
          → mint.predecessor ≡ minter
          → class_info_minter mint t class ≡ err not_minter)
        (unauthorize env class minter s)
      × Ensures
          (λ _ t.
            (mint : Env)
            → mint.predecessor ≡ minter
            → is_ok (class_info_minter mint t class) ≡ true)
          (authorize env class minter s)
unfolding unauthorize authorize class_info_minter
unauthorize-bars env class minter s v = (
  assert_admin-Ensures _ env _ s λ a. Ensures-assoc _ _ _ _ _ (
      Ensures-gets _ _ _ _ (
        Ensures-expect _ _ _ _ _ λ c h. elim (Option-cases (position minter c.minters)) [
          | inl e ↦ rw e (
              Ensures-pure _ _ _ _ λ mint p.
                minting class minter c s h _
                  (contains_none minter c.minters (position-listed minter c.minters e)) mint p)
          | inr (i, e) ↦ rw e (
              Ensures-last _ _ _ _ λ mint p.
                minting class minter (record c { minters = swap_remove i c.minters })
                  (with_minters class c (swap_remove i c.minters) s) (ground arith) _
                  (contains_none minter _ (
                    omega (
                      arith,
                      listed-swap_remove_self minter i c.minters e,
                      v.distinct class c minter h,
                    )))
                  mint p)
        ])),
  assert_admin-Ensures _ env _ s λ a. Ensures-assoc _ _ _ _ _ (
      Ensures-gets _ _ _ _ (
        Ensures-expect _ _ _ _ _ λ c h. elim (Bool-cases (contains minter c.minters)) [
          | inl e ↦
              rw e (Ensures-pure _ _ _ _ λ mint p. ap is_ok (minting class minter c s h _ e mint p))
          | inr e ↦ rw e (
              Ensures-last _ _ _ _ λ mint p. ap is_ok (
                minting class minter (record c { minters = c.minters ++ minter ∷ [] })
                  (with_minters class c (c.minters ++ minter ∷ []) s) (ground arith) _
                  (listed-contains minter _
                    (ground (arith, listed-append minter c.minters (minter ∷ []))))
                  mint p))
        ])),
)
