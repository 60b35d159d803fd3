-- ===== src/Near.antt =====
-- What the contracts take from NEAR: the types of the host's data, machine words, the calling
-- environment, and the persistent collections of the SDK.
--
-- An `AccountId` is a string that the contracts compare, so a number stands for it, in the order of
-- the strings; the one contract that reads its characters takes them as a parameter. The build of the contracts (contracts/Cargo.toml,
-- profile `release`) leaves overflow checks off, so machine arithmetic wraps around.
pub mod Words
pub mod Keys
pub mod Text
pub mod Lookup
pub mod Tree
use i_am_human.Base.{ℕ}

abbrev pub AccountId : Type 0
AccountId = ℕ

-- What `env` answers within one call.
pub record Env : Type 0 where
  -- env::predecessor_account_id()
  pub predecessor : AccountId
  -- env::block_timestamp_ms()
  pub now : ℕ
  -- env::attached_deposit()
  pub attached_deposit : ℕ
  -- env::storage_byte_cost()
  pub storage_byte_cost : ℕ
  -- env::prepaid_gas()
  pub prepaid_gas : ℕ
  -- env::signer_account_id()
  pub signer : AccountId
  -- env::current_account_id()
  pub current_account : AccountId
