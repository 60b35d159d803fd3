-- ===== src/Registry.antt =====
-- The SBT registry (contracts/registry/src): its state, its failures and its logs.
pub mod Keys
pub mod Invariant
pub mod SameTables
pub mod Admin
pub mod Rules
pub mod Tally
pub mod Tables
pub mod Query
pub mod Human
pub mod Renew
pub mod Revoke
pub mod Transfer
pub mod Recover
pub mod Burn
pub mod Mint
pub mod Sample
mod Tests
use i_am_human.Base.{ℕ, ◌+◌, ◌++◌, ◌∷◌, [], Option, none, some, List, Result, Tx, expect, modify}
use i_am_human.Near.{AccountId}
use i_am_human.Near.Lookup.{LookupMap, LookupSet}
use i_am_human.Near.Tree.{TreeMap}
use i_am_human.Sbt.{TokenId, ClassId, TokenData, Nep393Event}
use Keys.{IssuerId, IssuerTokenId, BalanceKey}

pub data AccountFlag : Type 0 where
  blacklisted verified gov_ban : AccountFlag

-- What the registry logs: the standard's events and its own (events.rs).
pub data Log : Type 0 where
  nep393 : Nep393Event → Log
  flag_accounts : AccountFlag → List AccountId → Log
  unflag_accounts : List AccountId → Log
  transfer_lock : AccountId → ℕ → Log

-- The panics and the errors of the registry, named after their messages.
pub data Panic : Type 0 where
  empty_classes not_issuer not_admin not_authorized : Panic
  is_banned from_is_banned flag_conflict not_flagged : Panic
  class_zero class_taken low_deposit : Panic
  token_not_found duplicated_token not_owner no_supply no_balance : Panic
  in_soul_transfer transfer_locked recipient_has_sbt : Panic
  issuer_needed limit_zero from_token_zero inconsistent_issuers : Panic
  not_human nothing_to_revoke out_of_bounds bad_json : Panic

-- `struct Contract`, and the logs of the transaction.
pub record Contract : Type 0 where
  pub authority : AccountId
  pub sbt_issuers : LookupMap AccountId IssuerId
  pub issuer_id_map : LookupMap IssuerId AccountId
  pub ongoing_soul_tx : LookupMap AccountId IssuerTokenId
  pub transfer_locks : LookupMap AccountId ℕ
  pub banlist : LookupSet AccountId
  pub flagged : LookupMap AccountId AccountFlag
  pub authorized_flaggers : Option (List AccountId)
  pub supply_by_owner : LookupMap (AccountId × IssuerId) ℕ
  pub supply_by_class : LookupMap (IssuerId × ClassId) ℕ
  pub supply_by_issuer : LookupMap IssuerId ℕ
  pub balances : TreeMap BalanceKey TokenId
  pub issuer_tokens : LookupMap IssuerTokenId TokenData
  pub next_token_ids : LookupMap IssuerId TokenId
  pub next_issuer_id : IssuerId
  pub iah_sbts : AccountId × List ClassId
  pub logs : List Log

abbrev pub Call : Type 0 → Type 0
Call A = Tx Panic Contract A

abbrev pub emit : Log → Call (Unit {0})
emit l = modify (λ s. record s { logs = s.logs ++ l ∷ [] })
