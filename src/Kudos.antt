-- ===== src/Kudos.antt =====
-- The kudos contract (contracts/kudos/src): the state of contract.rs, misc.rs and settings.rs. The
-- data that it keeps in the external database are not its state.
pub mod Limits
pub mod Json
pub mod Owner
pub mod Exchange
pub mod Upvote
mod Tests
use i_am_human.Base.{ℕ, Bool, Option, List, String, Tx}
use i_am_human.Near.{AccountId}
use i_am_human.Near.Text.{Chars}
use i_am_human.Near.Lookup.{LookupSet}
use i_am_human.Sbt.{TokenId, TokenMetadata}

abbrev pub KudosId : Type 0
KudosId = ℕ

pub data RunningState : Type 0 where
  running paused : RunningState

-- `Settings`, which is all that `VSettings` has.
pub record Settings : Type 0 where
  pub commentary_message_max_length : ℕ
  pub max_number_of_hashtags_per_kudos : ℕ
  pub hashtag_text_max_length : ℕ
  pub min_number_of_upvotes_to_exchange_kudos : ℕ
  pub pok_sbt_ttl : ℕ

pub record SettingsView : Type 0 where
  pub commentary_message_max_length : Option ℕ
  pub max_number_of_hashtags_per_kudos : Option ℕ
  pub hashtag_text_max_length : Option ℕ
  pub min_number_of_upvotes_to_exchange_kudos : Option ℕ
  pub pok_sbt_ttl : Option ℕ

-- The errors and panics.
pub data KudosError : Type 0 where
  contract_paused not_allowed db_not_set db_already_set : KudosError
  not_enough_gas wrong_deposit already_exchanged no_minted_tokens : KudosError
  db_call_failed too_many_hashtags hashtag_too_long bad_hashtag not_eligible : KudosError

-- `struct Contract`
pub record Contract : Type 0 where
  pub owner_id : AccountId
  pub running_state : RunningState
  pub last_incremental_id : ℕ
  pub external_db_id : Option AccountId
  pub iah_registry : AccountId
  pub settings : Settings
  pub exchanged_kudos : LookupSet KudosId

abbrev pub Call : Type 0 → Type 0
Call A = Tx KudosError Contract A
