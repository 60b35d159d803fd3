-- ===== src/Oracle/Mint.antt =====
-- The oracle's initialisation, `sbt_mint` and its callback (contracts/oracle/src/lib.rs). A memo is
-- only logged.
use i_am_human.Base.{
  ℕ, ◌*◌, ◌/◌, Bool, not, ◌&&◌, List, [], ◌∷◌, Option, none, some, ltb, leb, if◌then◌else◌, ◌>>=◌,
  ◌>>◌, pure, gets, modify, require, expect, ◌==◌ as nat_eq,
}
use i_am_human.Near.{AccountId, Env}
use i_am_human.Near.Words.{add_u64}
use i_am_human.Near.Keys.{ℕ_key, list_key}
use i_am_human.Near.Text.{Chars, ends_with}
use i_am_human.Near.Lookup.{empty, empty_set, add, drop}
use i_am_human.Sbt.{TokenId, ClassId, ContractMetadata, TokenMetadata}
use i_am_human.Cost.{mint_deposit, calculate_mint_gas}
use i_am_human.Oracle.{
  Bytes, elections, unsupported_account, future_claim, expired_claim, wrong_claimer,
  bad_external_id, claim_b64_arg, claim_sig_arg, borsh, b64_err, bad_request, duplicated_id,
  bad_hex, no_token, insufficient_deposit, Contract, Call, MintPromise, Platform,
}
use i_am_human.Oracle.Account.{is_supported_account, normalize_external_id, verify_claim}

abbrev pub class_fv_sbt : ClassId
class_fv_sbt = 1

abbrev pub class_kyc_sbt : ClassId
class_kyc_sbt = 2

abbrev pub elections_start : ℕ
elections_start = 1693612799000

abbrev pub elections_end : ℕ
elections_end = 1695427199000

-- "i-am-human.near"
abbrev pub production : Chars
production = 105 ∷ 45 ∷ 97 ∷ 109 ∷ 45 ∷ 104 ∷ 117 ∷ 109 ∷ 97 ∷ 110 ∷ 46 ∷ 110 ∷ 101 ∷ 97 ∷ 114 ∷ []

unfoldable pub required_sbt_mint_deposit : Bool → ℕ
required_sbt_mint_deposit is_verified_kyc =
    if is_verified_kyc then mint_deposit 2 else mint_deposit 1

abbrev pub token_metadata : ClassId → ℕ → ℕ → TokenMetadata
token_metadata class issued_at expires_at = record {
  class = class;
  issued_at = some issued_at;
  expires_at = some expires_at;
  reference = none;
  reference_hash = none;
}

-- `tokens_metadata`, with `now_ms`, the tokens' time to live and whether the claim has a KYC.
unfoldable pub claim_tokens : ℕ → ℕ → Bool → List TokenMetadata
claim_tokens now_ms ttl verified_kyc =
    token_metadata class_fv_sbt now_ms (add_u64 now_ms ttl)
    ∷ (if verified_kyc then token_metadata class_kyc_sbt now_ms (add_u64 now_ms ttl) ∷ [] else [])

-- The contract that `new` returns, with the checked public key.
unfoldable pub new : Bytes → ContractMetadata → AccountId → ℕ → AccountId → Contract
new authority_pubkey metadata registry claim_ttl admin = record {
  metadata = metadata;
  registry = registry;
  claim_ttl = if nat_eq claim_ttl 0 then 3600 * 24 else claim_ttl;
  sbt_ttl_ms = 1000 * 3600 * 24 * 548;
  authority_pubkey = authority_pubkey;
  used_identities = empty_set;
  admins = add admin empty_set;
  class_metadata = empty;
}

module _ (platform : Platform) where
  unfoldable pub is_used_identity : Chars → Call Bool
  unfolding normalize_external_id
  is_used_identity external_id = do
    normalised_id ← expect bad_hex (normalize_external_id platform external_id)
    gets (λ s. s.used_identities normalised_id)

  unfoldable pub sbt_mint : Env → Chars → Chars → Call MintPromise
  unfolding is_supported_account normalize_external_id verify_claim claim_tokens
  sbt_mint env claim_b64 claim_sig = do
    require (bad_request elections) (
        not (
          ends_with (platform.chars env.current_account) production
          && (ltb elections_start env.now && leb env.now elections_end)))
    require (bad_request unsupported_account)
        (is_supported_account (platform.chars env.current_account) (platform.chars env.signer))
    claim_bytes ← expect (b64_err claim_b64_arg) (platform.b64_decode claim_b64)
    claim ← expect borsh (platform.claim_of_bytes claim_bytes)
    sig ← expect (b64_err claim_sig_arg) (platform.b64_decode claim_sig)
    pubkey ← gets (λ s. s.authority_pubkey)
    verify_claim platform sig claim_bytes pubkey
    require (insufficient_deposit (required_sbt_mint_deposit claim.verified_kyc))
        (leb (required_sbt_mint_deposit claim.verified_kyc) env.attached_deposit)
    require (bad_request future_claim) (leb claim.timestamp (env.now / 1000))
    claim_ttl ← gets (λ s. s.claim_ttl)
    require (bad_request expired_claim) (ltb (env.now / 1000) (add_u64 claim.timestamp claim_ttl))
    require (bad_request wrong_claimer) (nat_eq claim.claimer env.signer)
    external_id ←
        expect (bad_request bad_external_id) (normalize_external_id platform claim.external_id)
    used ← gets (λ s. s.used_identities external_id)
    require duplicated_id (not used)
    ttl ← gets (λ s. s.sbt_ttl_ms)
    modify (λ s. record s { used_identities = add external_id s.used_identities })
    pure (record {
      token_spec = (claim.claimer, claim_tokens env.now ttl claim.verified_kyc) ∷ [];
      deposit = required_sbt_mint_deposit claim.verified_kyc;
      gas = calculate_mint_gas (if claim.verified_kyc then 2 else 1);
      external_id = platform.hex_encode external_id;
    })

  -- `none` is the error that the callback returns without a panic.
  unfoldable pub sbt_mint_callback : Chars → Option (List TokenId) → Call (Option TokenId)
  sbt_mint_callback external_id (some []) = expect no_token none
  sbt_mint_callback external_id (some (token ∷ tokens)) = pure (some token)
  sbt_mint_callback external_id none = do
    id ← expect bad_hex (platform.hex_decode external_id)
    modify (λ s. record s { used_identities = drop id s.used_identities })
    pure none
