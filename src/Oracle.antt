-- ===== src/Oracle.antt =====
-- The identity oracle (contracts/oracle/src): the state of lib.rs, the claims of util.rs and the
-- errors of errors.rs.
pub mod Account
pub mod Mint
pub mod Admin
pub mod Spelling
pub mod Guards
pub mod Rollback
pub mod Identities
pub mod Authority
mod Tests
use i_am_human.Base.{ℕ, Bool, Option, List, Tx}
use i_am_human.Near.{AccountId}
use i_am_human.Near.Text.{Chars}
use i_am_human.Near.Lookup.{LookupMap, LookupSet}
use i_am_human.Sbt.{ClassId, ContractMetadata, ClassMetadata, TokenMetadata}

abbrev pub Bytes : Type 0
Bytes = List ℕ

pub record Claim : Type 0 where
  pub claimer : AccountId
  pub external_id : Chars
  -- In seconds.
  pub timestamp : ℕ
  pub verified_kyc : Bool

-- The texts of `CtrError::BadRequest`.
pub data Request : Type 0 where
  elections unsupported_account future_claim expired_claim wrong_claimer : Request
  bad_external_id class_not_found : Request

-- The argument that `b64_decode` names.
pub data Argument : Type 0 where
  claim_b64_arg claim_sig_arg : Argument

-- The constructors of `CtrError` that the contract uses, then its panics.
pub data CtrError : Type 0 where
  borsh : CtrError
  b64_err : Argument → CtrError
  bad_request : Request → CtrError
  duplicated_id signature : CtrError
  signature_len bad_pubkey bad_hex not_admin wrong_class no_token : CtrError
  insufficient_deposit : ℕ → CtrError

-- `struct Contract`
pub record Contract : Type 0 where
  pub metadata : ContractMetadata
  pub registry : AccountId
  pub claim_ttl : ℕ
  pub sbt_ttl_ms : ℕ
  pub authority_pubkey : Bytes
  pub used_identities : LookupSet Bytes
  pub admins : LookupSet AccountId
  pub class_metadata : LookupMap ClassId ClassMetadata

abbrev pub Call : Type 0 → Type 0
Call A = Tx CtrError Contract A

-- The promise of `sbt_mint`: the registry's `sbt_mint` with its argument, deposit and gas, then the
-- callback with its argument.
pub record MintPromise : Type 0 where
  pub token_spec : List (AccountId × List TokenMetadata)
  pub deposit : ℕ
  pub gas : ℕ
  pub external_id : Chars

-- What the contract takes from the crates base64, borsh and hex, from the host's `ed25519_verify`,
-- from Unicode's lower case table, and the characters of an account's name.
pub record Platform : Type 0 where
  pub b64_decode : Chars → Option Bytes
  pub claim_of_bytes : Bytes → Option Claim
  pub hex_decode : Chars → Option Bytes
  pub hex_encode : Bytes → Chars
  pub ed25519_verify : Bytes → Bytes → Bytes → Bool
  pub other_lowercase : ℕ → Chars
  pub chars : AccountId → Chars
