-- ===== src/Oracle/Authority.antt =====
-- What an admin of the oracle can do, and nobody else (contracts/oracle/src/lib.rs).
use i_am_human.Base.{
  ℕ, ◌+◌, ◌-◌, ◌≡◌, ◌⊎◌, refl, ap, Bool, true, false, List, [], ◌∷◌, Option, none, some, map,
  length, leb, ltb, arith, if◌then◌else◌, err, ◌>>=◌, ◌>>◌, gets-require-false, Ensures,
  Ensures-assoc, Ensures-gets, Ensures-require, Ensures-pure, Returns, Returns-bind, Returns-assoc,
  Returns-gets, Returns-require, Returns-last,
}
use i_am_human.Near.{AccountId, Env}
use i_am_human.Near.Keys.{ℕ_key}
use i_am_human.Near.Lookup.{add, drop-add}
use i_am_human.Sbt.{TokenId, ClassId}
use i_am_human.Cost.{mint_deposit}
use i_am_human.Oracle.{not_admin, Contract, Call, Platform}
use i_am_human.Oracle.Mint.{token_metadata}
use i_am_human.Oracle.Admin.{
  assert_admin, sbt_revoke, admin_change_authority, add_admin, remove_admin, set_class_metadata,
  admin_mint,
}
use i_am_human.Oracle.Identities.{
  Administration, authority, added, removed, class_metadata, administer,
}

-- A call that begins with the guard fails for a stranger.
assert_admin-refuses :
    {B : Type 0} (env : Env) (k : Unit {0} → Call B) (s : Contract)
    → s.admins env.predecessor ≡ false
    → (assert_admin env >>= k) s ≡ err not_admin
unfolding assert_admin
assert_admin-refuses env k s h = gets-require-false _ _ k s h

administer-not_admin :
    (platform : Platform) (env : Env) (a : Administration) (s : Contract)
    → s.admins env.predecessor ≡ false
    → administer platform env a s ≡ err not_admin
unfolding administer admin_change_authority add_admin remove_admin set_class_metadata
administer-not_admin platform env (authority key) s h = assert_admin-refuses env _ s h
administer-not_admin platform env (added x) s h = assert_admin-refuses env _ s h
administer-not_admin platform env (removed x) s h = assert_admin-refuses env _ s h
administer-not_admin platform env (class_metadata c m) s h = assert_admin-refuses env _ s h

-- Every call of an admin that changes the contract, `sbt_revoke` and `admin_mint` fail for an
-- account that is not an admin.
pub administer-refuses :
    (platform : Platform) (env : Env) (a : Administration) (tokens : List TokenId) (burn : Bool)
    (mint_data : List (AccountId × ℕ)) (class : ClassId) (s : Contract)
    → s.admins env.predecessor ≡ false
    → (administer platform env a s ≡ err not_admin)
      × (sbt_revoke env tokens burn s ≡ err not_admin)
      × (admin_mint env mint_data class s ≡ err not_admin)
unfolding sbt_revoke admin_mint
administer-refuses platform env a tokens burn mint_data class s h = (
  administer-not_admin platform env a s h,
  assert_admin-refuses env _ s h,
  assert_admin-refuses env _ s h,
)

-- What is paid back.
abbrev pub refunded : Option ℕ → ℕ
refunded none = 0
refunded (some n) = n

-- An `admin_mint` that succeeds comes from an admin, for class 1 or 2, and changes nothing; what it
-- pays the registry and what it pays back make up the attached deposit; and each pair of
-- the argument gets one token of the class that expires at the given time.
pub admin_mint-conserves :
    (env : Env) (mint_data : List (AccountId × ℕ)) (class : ClassId) (s : Contract)
    → Ensures
        (λ p t.
          (s.admins env.predecessor ≡ true)
          × ((class ≡ 1) ⊎ (class ≡ 2))
          × (t ≡ s)
          × (p.deposit + refunded p.refund ≡ env.attached_deposit)
          × (p.deposit ≡ mint_deposit (length mint_data))
          × (p.token_spec ≡ map (λ d. (d.0, token_metadata class env.now d.1 ∷ [])) mint_data))
        (admin_mint env mint_data class s)
unfolding admin_mint assert_admin
admin_mint-conserves env mint_data class s = Ensures-assoc _ _ _ _ _ (
    Ensures-gets _ _ _ _ (
      Ensures-require _ _ _ _ _ λ admin. Ensures-require _ _ _ _ _ λ paid.
        Ensures-require _ _ _ _ _ λ c. Ensures-pure _ _ _ _ (
          admin,
          ground (arith, c),
          refl,
          refund (mint_deposit (length mint_data)) env.attached_deposit paid,
          refl,
          refl,
        )))
  where
    refund :
        (required attached : ℕ)
        → leb required attached ≡ true
        → required + refunded (if ltb required attached then some (attached - required) else none)
          ≡ attached
    refund required attached h = ground (arith, h)

-- An admin that an admin adds and then removes, who was none before, leaves the contract as it was.
pub add_admin-remove_admin :
    (env : Env) (admin : AccountId) (s : Contract)
    → s.admins env.predecessor ≡ true
    → s.admins admin ≡ false
    → Returns (λ _ t. t ≡ s) ((add_admin env admin >> remove_admin env admin) s)
unfolding add_admin remove_admin assert_admin
add_admin-remove_admin env admin s h new =
    Returns-bind _ _ _ _ _
      (Returns-assoc (λ _ t. t ≡ record s { admins = add admin s.admins }) _ _ _ _
        (Returns-gets _ _ _ _ (Returns-require _ _ _ _ _ h (Returns-last _ _ _ _ refl))))
      λ _ t e. Returns-assoc _ _ _ _ _ (
        Returns-gets _ _ _ _ (
          Returns-require _ _ _ _ _ (ground (arith, e, h)) (
            Returns-last _ _ _ _
              (rw e (ap (λ m. record s { admins = m }) (drop-add admin s.admins new))))))
