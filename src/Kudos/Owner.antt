-- ===== src/Kudos/Owner.antt =====
-- The owner's operations and the callbacks of the external database's answers
-- (contracts/kudos/src/contract.rs). `none` as an answer is a call that failed.
use i_am_human.Base.{
  ℕ, Bool, true, false, not, Option, none, some, unwrap_or, is_some, ◌>>=◌, ◌>>◌, pure, gets,
  modify, require, expect, ◌==◌ as nat_eq,
}
use i_am_human.Near.{AccountId, Env}
use i_am_human.Near.Words.{sub_u128}
use i_am_human.Near.Lookup.{empty_set}
use i_am_human.Kudos.{
  Contract, Call, RunningState, running, paused, SettingsView, contract_paused, not_allowed,
  db_not_set, db_already_set, db_call_failed,
}
use i_am_human.Kudos.Limits.{default_settings, apply_changes, settings_view}
use i_am_human.Kudos.Json.{Reading, Value, build_initial_json_for_socialdb}

-- The promises, each with what its callback gets: `set` of the database with a deposit and
-- `on_ext_db_init`, and `grant_write_permission` to the registry and
-- `on_ext_db_write_permission_granted`.
pub data OwnerPromise : Type 0 where
  set : AccountId → ℕ → Value → AccountId → ℕ → OwnerPromise
  grant : AccountId → ℕ → AccountId → AccountId → OwnerPromise

unfoldable pub init : Env → Option AccountId → AccountId → Contract
init env owner_id iah_registry = record {
  owner_id = unwrap_or env.predecessor owner_id;
  running_state = running;
  last_incremental_id = 0;
  external_db_id = none;
  iah_registry = iah_registry;
  settings = default_settings;
  exchanged_kudos = empty_set;
}

abbrev pub is_running : RunningState → Bool
is_running running = true
is_running paused = false

unfoldable pub assert_contract_running : Call (Unit {0})
assert_contract_running = do
  state ← gets (λ s. s.running_state)
  require contract_paused (is_running state)

unfoldable pub assert_owner : Env → Call (Unit {0})
assert_owner env = do
  owner ← gets (λ s. s.owner_id)
  require not_allowed (nat_eq env.predecessor owner)

-- The method `external_db_id`.
unfoldable pub database : Call AccountId
database = do id ← gets (λ s. s.external_db_id); expect db_not_set id

-- The permission is for the contract's own data: the last argument.
unfoldable pub grant_write_permission : Env → AccountId → AccountId → ℕ → Call OwnerPromise
grant_write_permission env external_db_id iah_registry deposit =
    pure (grant external_db_id deposit iah_registry env.current_account)

unfoldable pub update_iah_registry : Env → AccountId → Call OwnerPromise
update_iah_registry env iah_registry = do
  assert_owner env
  db ← database
  grant_write_permission env db iah_registry env.attached_deposit

unfoldable pub set_external_db : Reading → Env → AccountId → Call OwnerPromise
set_external_db reading env external_db_id = do
  assert_owner env
  old ← gets (λ s. s.external_db_id)
  require db_already_set (not (is_some old))
  pure (
      set external_db_id (sub_u128 env.attached_deposit 1)
        (build_initial_json_for_socialdb reading env.current_account) external_db_id 1)

unfoldable pub view_settings : Call SettingsView
view_settings = gets (λ s. settings_view s.settings)

unfoldable pub update_settings : Env → SettingsView → Call (Unit {0})
update_settings env settings_json = do
  assert_owner env
  modify (λ s. record s { settings = apply_changes s.settings settings_json })

unfoldable pub on_ext_db_init : Env → AccountId → ℕ → Option (Unit {0}) → Call OwnerPromise
on_ext_db_init env external_db_id deposit answer = do
  expect db_call_failed answer
  registry ← gets (λ s. s.iah_registry)
  grant_write_permission env external_db_id registry deposit

unfoldable pub on_ext_db_write_permission_granted :
    AccountId → AccountId → Option (Unit {0}) → Call (Unit {0})
on_ext_db_write_permission_granted external_db_id iah_registry answer = do
  expect db_call_failed answer
  modify (λ s. record s { iah_registry = iah_registry; external_db_id = some external_db_id })
