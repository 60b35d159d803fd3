-- ===== src/Registry/Admin/Guarded.antt =====
-- Who may call the guarded operations of the registry, and what they change
-- (contracts/registry/src/lib.rs).
use i_am_human.Base.{
  ℕ, ◌≡◌, ◌≢◌, ◌==◌, ◌||◌, refl, subst, fun_ext, not, err, Bool, gets-require-false, SucceedsIf,
  SucceedsIf-gets, SucceedsIf-require_last, true, false, Option, none, some, List, [], ◌∷◌, ◌++◌,
  contains, arith, ==_iff, Bool-cases, inl, inr, is_some, Ensures, Ensures-bind, Ensures-gets,
  Ensures-modify, Ensures-require, Ensures-last, Ensures-pure, Ensures-mono,
}
use i_am_human.Near.{AccountId, Env}
use i_am_human.Near.Keys.{ℕ_key}
use i_am_human.Registry.{Contract, AccountFlag, not_admin, not_authorized}
use i_am_human.Registry.Rules.{
  Ensures-assert_authority, Ensures-assert_authorized_flagger, Ensures-assert_not_banned,
}
use i_am_human.Registry.Admin.{
  assert_authority, assert_authorized_flagger, change_admin, admin_set_authorized_flaggers,
  admin_add_authorized_flagger, add_flagger, lists_flagger, flag_each, admin_flag_accounts,
  unflag_each, admin_unflag_accounts,
}

-- Exactly the accounts of this test may flag accounts: others fail, whatever the flag and the accounts.
abbrev pub MayFlag : (AccountId → Bool) → Contract → Type 0
MayFlag may s =
    (env : Env) (flag : AccountFlag) (accounts : List AccountId)
    → SucceedsIf (may env.predecessor) (λ _ t. t ≡ s) (assert_authorized_flagger env s)
      × (may env.predecessor ≡ false
          → (admin_flag_accounts env flag accounts s ≡ err not_authorized)
            × (admin_unflag_accounts env accounts s ≡ err not_authorized))

assert_authorized_flagger-decides :
    (env : Env) (s : Contract)
    → SucceedsIf
        (lists_flagger env.predecessor s.authorized_flaggers)
        (λ _ t. t ≡ s)
        (assert_authorized_flagger env s)
unfolding assert_authorized_flagger
assert_authorized_flagger-decides env s =
    SucceedsIf-gets _ _ _ _ _ (SucceedsIf-require_last _ _ _ _ λ _. refl)

lists_flagger-MayFlag : (s : Contract) → MayFlag (λ a. lists_flagger a s.authorized_flaggers) s
unfolding admin_flag_accounts admin_unflag_accounts assert_authorized_flagger i_am_human.Base.◌>>=◌
lists_flagger-MayFlag s env flag accounts = (
  assert_authorized_flagger-decides env s,
  λ no. (
    gets-require-false (λ t. lists_flagger env.predecessor t.authorized_flaggers) _ _ s no,
    gets-require-false (λ t. lists_flagger env.predecessor t.authorized_flaggers) _ _ s no,
  ),
)

-- Tests that agree let the same accounts flag.
MayFlag-same :
    (may may' : AccountId → Bool) (s : Contract)
    → ((a : AccountId) → may a ≡ may' a)
    → MayFlag may s
    → MayFlag may' s
MayFlag-same may may' s h m = subst (λ t. MayFlag t s) (fun_ext h) m

contains-append_one :
    (b a : AccountId) (l : List AccountId) → contains b (l ++ a ∷ []) ≡ (b == a || contains b l)
contains-append_one b a [] = refl
contains-append_one b a (x ∷ l) = ground (arith, contains-append_one b a l)

-- The list afterwards is the one before with the account, and the answer is whether it is new.
add_flagger-lists :
    (a : AccountId) (l : Option (List AccountId)) (s : Contract)
    → s.authorized_flaggers ≡ l
    → Ensures
        (λ new t.
          (t ≡ record s { authorized_flaggers = t.authorized_flaggers })
          × (new ≡ not (lists_flagger a l))
          × ((b : AccountId)
              → lists_flagger b t.authorized_flaggers ≡ (b == a || lists_flagger b l)))
        (add_flagger a l s)
add_flagger-lists a none s e = Ensures-pure _ _ _ _ (refl, refl, λ b. ground arith)
add_flagger-lists a (some l) s e = elim (Bool-cases (contains a l)) [
  | inl f ↦ rw f (Ensures-pure _ _ _ _ (refl, ground (arith, f), λ b. rw e (ground (arith, f))))
  | inr f ↦ rw f (Ensures-pure _ _ _ _ (refl, ground (arith, f), λ b. contains-append_one b a l))
]

-- Whoever is not the authority cannot use its operations.
not_authority-fails :
    (env : Env) (b : AccountId) (new : List AccountId) (s : Contract)
    → env.predecessor ≢ s.authority
    → (change_admin env b s ≡ err not_admin)
      × (admin_set_authorized_flaggers env new s ≡ err not_admin)
      × (admin_add_authorized_flagger env b s ≡ err not_admin)
unfolding change_admin admin_set_authorized_flaggers admin_add_authorized_flagger assert_authority
    i_am_human.Base.◌>>=◌
not_authority-fails env b new s ne =
    let no : (s.authority == env.predecessor) ≡ false = ground (arith, ne) in
    (
      gets-require-false (λ t. t.authority == env.predecessor) _ _ s no,
      gets-require-false (λ t. t.authority == env.predecessor) _ _ s no,
      gets-require-false (λ t. t.authority == env.predecessor) _ _ s no,
    )

-- If one of `change_admin`, `admin_set_authorized_flaggers` and `admin_add_authorized_flagger`
-- succeeds, the caller is the authority. After the first nothing but the authority has changed, and
-- these calls fail for everybody but the new one. After the others nothing but the list of flaggers
-- has changed: it lists those given, or those before and the new one, and the answer says whether that
-- one is new; exactly those listed pass the flaggers' guard, and for others flagging and unflagging
-- fails.
pub admin-authority :
    (env : Env) (a : AccountId) (flaggers : List AccountId) (s : Contract)
    → Ensures
        (λ _ t.
          (s.authority ≡ env.predecessor)
          × (t ≡ record s { authority = a })
          × ((later : Env) (b : AccountId) (new : List AccountId)
              → later.predecessor ≢ a
              → (change_admin later b t ≡ err not_admin)
                × (admin_set_authorized_flaggers later new t ≡ err not_admin)
                × (admin_add_authorized_flagger later b t ≡ err not_admin)))
        (change_admin env a s)
      × Ensures
          (λ _ t.
            (s.authority ≡ env.predecessor)
            × (t ≡ record s { authorized_flaggers = some flaggers })
            × MayFlag (λ b. contains b flaggers) t)
          (admin_set_authorized_flaggers env flaggers s)
      × Ensures
          (λ new t.
            (s.authority ≡ env.predecessor)
            × (t ≡ record s { authorized_flaggers = t.authorized_flaggers })
            × (new ≡ not (lists_flagger a s.authorized_flaggers))
            × ((b : AccountId)
                → lists_flagger b t.authorized_flaggers
                  ≡ (b == a || lists_flagger b s.authorized_flaggers))
            × MayFlag (λ b. b == a || lists_flagger b s.authorized_flaggers) t)
          (admin_add_authorized_flagger env a s)
unfolding change_admin admin_set_authorized_flaggers admin_add_authorized_flagger
admin-authority env a flaggers s = (
  Ensures-assert_authority _ env _ _ λ h. Ensures-last _ _ _ _ (
    (==_iff s.authority env.predecessor).0 h,
    refl,
    λ later b new ne. not_authority-fails later b new (record s { authority = a }) ne,
  ),
  Ensures-assert_authority _ env _ _ λ h. Ensures-last _ _ _ _ (
    (==_iff s.authority env.predecessor).0 h,
    refl,
    lists_flagger-MayFlag (record s { authorized_flaggers = some flaggers }),
  ),
  Ensures-assert_authority _ env _ _ λ h. Ensures-gets _ _ _ _ (
      Ensures-mono _ _ _
        (λ _ t p. (
          (==_iff s.authority env.predecessor).0 h,
          p.0,
          p.1,
          p.2,
          MayFlag-same _ _ t p.2 (lists_flagger-MayFlag t),
        ))
        (add_flagger-lists a s.authorized_flaggers s refl)),
)

-- The accounts of the list have the flag and are not banned; the others are as before.
pub record Flagged (flag : AccountFlag) (accounts : List AccountId) (s t : Contract) : Type 0 where
  pub set :
      (a : AccountId)
      → contains a accounts ≡ true
      → (t.flagged a ≡ some flag) × (s.banlist a ≡ false)
  pub rest : (a : AccountId) → contains a accounts ≡ false → t.flagged a ≡ s.flagged a
  pub bans : t.banlist ≡ s.banlist

flag_each-Flagged :
    (flag : AccountFlag) (accounts : List AccountId) (s : Contract)
    → Ensures (λ _ t. Flagged flag accounts s t) (flag_each flag accounts s)
unfolding flag_each
flag_each-Flagged flag [] s =
    Ensures-pure _ _ _ _
      (record { set = λ a h. absurd (ground (arith, h)); rest = λ a h. refl; bans = refl })
flag_each-Flagged flag (x ∷ accounts) s = Ensures-assert_not_banned _ _ _ _ λ free.
    Ensures-modify _ _ _ _ (
      Ensures-mono _ _ _
        (λ _ t w. record {
          set = λ a h. elim (Bool-cases (contains a accounts)) [
            | inl m ↦ (ground (arith, w.set a m), ground (arith, w.set a m))
            | inr m ↦ (ground (arith, h, w.rest a m), ground (arith, h, free))
          ];
          rest = λ a h. ground (arith, h, w.rest a);
          bans = w.bans;
        })
        (flag_each-Flagged flag accounts _))

-- If `admin_flag_accounts` succeeds, the caller is a listed flagger, all the accounts given have
-- the flag afterwards, none of them is banned, and no other account's flag and no ban has
-- changed.
pub admin_flag_accounts-Flagged :
    (env : Env) (flag : AccountFlag) (accounts : List AccountId) (s : Contract)
    → Ensures
        (λ _ t.
          (lists_flagger env.predecessor s.authorized_flaggers ≡ true) × Flagged flag accounts s t)
        (admin_flag_accounts env flag accounts s)
unfolding admin_flag_accounts
admin_flag_accounts-Flagged env flag accounts s = Ensures-assert_authorized_flagger _ env _ _ λ h.
    Ensures-bind _ _ _ _ _ (flag_each-Flagged flag accounts s)
      λ _ t w. Ensures-last _ _ _ _ (h, record { set = w.set; rest = w.rest; bans = w.bans })

-- The accounts of the list had a flag and have none; the others are as before, and so are the bans.
pub record Unflagged (accounts : List AccountId) (s t : Contract) : Type 0 where
  pub cleared :
      (a : AccountId)
      → contains a accounts ≡ true
      → (t.flagged a ≡ none) × (is_some (s.flagged a) ≡ true)
  pub rest : (a : AccountId) → contains a accounts ≡ false → t.flagged a ≡ s.flagged a
  pub bans : t.banlist ≡ s.banlist

unflag_each-Unflagged :
    (accounts : List AccountId) (s : Contract)
    → Ensures (λ _ t. Unflagged accounts s t) (unflag_each accounts s)
unfolding unflag_each
unflag_each-Unflagged [] s =
    Ensures-pure _ _ _ _
      (record { cleared = λ a h. absurd (ground (arith, h)); rest = λ a h. refl; bans = refl })
unflag_each-Unflagged (x ∷ accounts) s = Ensures-gets _ _ _ _ (
    Ensures-modify _ _ _ _ (
      Ensures-require _ _ _ _ _ λ had.
        Ensures-mono _ _ _
          (λ _ t w. record {
            cleared = λ a h. elim (Bool-cases (contains a accounts)) [
              | inl m ↦ (ground (arith, w.cleared a m), ground (arith, w.cleared a m))
              | inr m ↦ (ground (arith, h, w.rest a m), ground (arith, h, had))
            ];
            rest = λ a h. ground (arith, h, w.rest a);
            bans = w.bans;
          })
          (unflag_each-Unflagged accounts _)))

-- If `admin_unflag_accounts` succeeds, the caller is a listed flagger, all the accounts given had a
-- flag and have none afterwards, and no other account's flag and no ban has changed.
pub admin_unflag_accounts-Unflagged :
    (env : Env) (accounts : List AccountId) (s : Contract)
    → Ensures
        (λ _ t.
          (lists_flagger env.predecessor s.authorized_flaggers ≡ true) × Unflagged accounts s t)
        (admin_unflag_accounts env accounts s)
unfolding admin_unflag_accounts
admin_unflag_accounts-Unflagged env accounts s = Ensures-assert_authorized_flagger _ env _ _ λ h.
    Ensures-bind _ _ _ _ _ (unflag_each-Unflagged accounts s) λ _ t w.
      Ensures-last _ _ _ _ (h, record { cleared = w.cleared; rest = w.rest; bans = w.bans })
