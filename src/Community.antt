-- ===== src/Community.antt =====
-- The community SBT contracts (contracts/community-sbt, where admins of the contract enable classes,
-- and contracts/community-open, where anybody acquires a class): what the two share.
pub mod Vectors
pub mod Mint
pub mod Renew
pub mod Loops
pub mod Checks
pub mod Closed
pub mod Open
mod Tests
use i_am_human.Base.{ℕ, Bool, List}
use i_am_human.Near.{AccountId}
use i_am_human.Sbt.{TokenId, TokenMetadata}

-- The constructors of `MintError` and of the open contract's `Error`, then the panics.
pub data CommunityError : Type 0 where
  not_minter class_not_enabled not_admin class_not_found : CommunityError
  required_deposit : ℕ → CommunityError
  empty_list classes_failed token_not_found unknown_class caller_not_minter : CommunityError
  ttl_too_long ttl_too_short no_admins not_implemented : CommunityError

-- `MIN_TTL`
abbrev pub min_ttl : ℕ
min_ttl = 86400000

-- The promise of `sbt_mint_many`: the registry's `sbt_mint_iah` or `sbt_mint`, its argument, the
-- deposit and the gas.
pub record MintCall : Type 0 where
  pub with_iah : Bool
  pub token_spec : List (AccountId × List TokenMetadata)
  pub deposit : ℕ
  pub gas : ℕ

-- The promise of `on_sbt_renew_callback`: the arguments of the registry's `sbt_renew`.
pub record RenewCall : Type 0 where
  pub tokens : List TokenId
  pub expires_at : ℕ

-- The promise of `on_sbt_revoke_callback`: the arguments of the registry's `sbt_revoke`.
pub record RevokeCall : Type 0 where
  pub tokens : List TokenId
  pub burn : Bool

-- The promise of `sbt_renew`: the registry's `sbt_classes` for the tokens of the issuer, then the
-- callback with its arguments.
pub record RenewPromise : Type 0 where
  pub issuer : AccountId
  pub caller : AccountId
  pub tokens : List TokenId
  pub ttl : ℕ

-- The promise of `sbt_revoke`, likewise.
pub record RevokePromise : Type 0 where
  pub issuer : AccountId
  pub caller : AccountId
  pub tokens : List TokenId
  pub burn : Bool
