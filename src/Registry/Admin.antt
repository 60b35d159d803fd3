-- ===== src/Registry/Admin.antt =====
-- The registry's constructor, its guards, and the operations of its authority and of its flaggers
-- (contracts/registry/src/lib.rs).
pub mod Issuers
pub mod Guarded
use i_am_human.Base.{
  ℕ, ◌+◌, ◌≡◌, Bool, true, false, not, Option, none, some, List, [], ◌∷◌, ◌++◌, is_empty, contains,
  is_some, if◌then◌else◌, Result, Tx, ◌>>=◌, ◌>>◌, pure, gets, modify, require, expect, ◌==◌,
}
use i_am_human.Near.{AccountId, Env}
use i_am_human.Near.Words.{add_u32}
use i_am_human.Near.Lookup.{empty, empty_set, insert, remove, add}
use i_am_human.Near.Keys.{ℕ_key}
use i_am_human.Sbt.{ClassId}
use i_am_human.Registry.{
  AccountFlag, Contract, Call, Panic, emit, flag_accounts, unflag_accounts, empty_classes,
  not_issuer, not_admin, not_authorized, is_banned, not_flagged, inconsistent_issuers,
}
use i_am_human.Registry.Keys.{IssuerId}

-- The guards.

unfoldable pub assert_issuer : AccountId → Call IssuerId
assert_issuer issuer = do o ← gets (λ s. s.sbt_issuers issuer); expect not_issuer o

unfoldable pub issuer_by_id : IssuerId → Call AccountId
issuer_by_id id = do o ← gets (λ s. s.issuer_id_map id); expect inconsistent_issuers o

unfoldable pub assert_authority : Env → Call (Unit {0})
assert_authority env = do a ← gets (λ s. s.authority); require not_admin (a == env.predecessor)

unfoldable pub assert_not_banned : AccountId → Call (Unit {0})
assert_not_banned owner = do banned ← gets (λ s. s.banlist owner); require is_banned (not banned)

abbrev pub lists_flagger : AccountId → Option (List AccountId) → Bool
lists_flagger caller none = false
lists_flagger caller (some a) = contains caller a

unfoldable pub assert_authorized_flagger : Env → Call (Unit {0})
assert_authorized_flagger env = do
  a ← gets (λ s. s.authorized_flaggers)
  require not_authorized (lists_flagger env.predecessor a)

-- Issuers.

-- `_add_sbt_issuer`
unfoldable pub add_sbt_issuer : AccountId → Call Bool
add_sbt_issuer issuer s =
    if is_some (s.sbt_issuers issuer)
    then pure false s
    else pure true (record s {
      sbt_issuers = insert issuer s.next_issuer_id s.sbt_issuers;
      issuer_id_map = insert s.next_issuer_id issuer s.issuer_id_map;
      next_issuer_id = add_u32 s.next_issuer_id 1;
    })

unfoldable pub admin_add_sbt_issuer : Env → AccountId → Call Bool
unfolding assert_authority add_sbt_issuer
admin_add_sbt_issuer env issuer = do assert_authority env; add_sbt_issuer issuer

-- The contract that `new` starts from.
abbrev pub blank : AccountId → AccountId → List ClassId → List AccountId → Contract
blank authority iah_issuer iah_classes flaggers = record {
  authority = authority;
  sbt_issuers = empty;
  issuer_id_map = empty;
  ongoing_soul_tx = empty;
  transfer_locks = empty;
  banlist = empty_set;
  flagged = empty;
  authorized_flaggers = some flaggers;
  supply_by_owner = empty;
  supply_by_class = empty;
  supply_by_issuer = empty;
  balances = [];
  issuer_tokens = empty;
  next_token_ids = empty;
  next_issuer_id = 1;
  iah_sbts = (iah_issuer, iah_classes);
  logs = [];
}

unfoldable pub new :
    AccountId → AccountId → List ClassId → List AccountId → Result Panic (Unit {0} × Contract)
unfolding add_sbt_issuer
new authority iah_issuer iah_classes flaggers =
    (do require empty_classes (not (is_empty iah_classes)); add_sbt_issuer iah_issuer; pure tt)
      (blank authority iah_issuer iah_classes flaggers)

-- The authority.

unfoldable pub change_admin : Env → AccountId → Call (Unit {0})
unfolding assert_authority
change_admin env new_admin = do
  assert_authority env
  modify (λ s. record s { authority = new_admin })

unfoldable pub admin_set_authorized_flaggers : Env → List AccountId → Call (Unit {0})
unfolding assert_authority
admin_set_authorized_flaggers env flaggers = do
  assert_authority env
  modify (λ s. record s { authorized_flaggers = some flaggers })

abbrev pub add_flagger : AccountId → Option (List AccountId) → Call Bool
add_flagger account none s = pure true (record s { authorized_flaggers = some (account ∷ []) })
add_flagger account (some a) s =
    if contains account a
    then pure false s
    else pure true (record s { authorized_flaggers = some (a ++ account ∷ []) })

unfoldable pub admin_add_authorized_flagger : Env → AccountId → Call Bool
unfolding assert_authority
admin_add_authorized_flagger env account = do
  assert_authority env
  a ← gets (λ s. s.authorized_flaggers)
  add_flagger account a

-- Flags. The loop of `admin_flag_accounts`.
unfoldable pub flag_each : AccountFlag → List AccountId → Call (Unit {0})
unfolding assert_not_banned
flag_each flag [] = pure tt
flag_each flag (a ∷ accounts) = do
  assert_not_banned a
  modify (λ s. record s { flagged = insert a flag s.flagged })
  flag_each flag accounts

unfoldable pub admin_flag_accounts : Env → AccountFlag → List AccountId → Call (Unit {0})
unfolding assert_authorized_flagger flag_each
admin_flag_accounts env flag accounts = do
  assert_authorized_flagger env
  flag_each flag accounts
  emit (flag_accounts flag accounts)

-- The loop of `admin_unflag_accounts`.
unfoldable pub unflag_each : List AccountId → Call (Unit {0})
unflag_each [] = pure tt
unflag_each (a ∷ accounts) = do
  old ← gets (λ s. s.flagged a)
  modify (λ s. record s { flagged = remove a s.flagged })
  require not_flagged (is_some old)
  unflag_each accounts

unfoldable pub admin_unflag_accounts : Env → List AccountId → Call (Unit {0})
unfolding assert_authorized_flagger unflag_each
admin_unflag_accounts env accounts = do
  assert_authorized_flagger env
  unflag_each accounts
  emit (unflag_accounts accounts)
