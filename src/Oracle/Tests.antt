-- ===== src/Oracle/Tests.antt =====
-- Runs of the oracle on a small state, and the theorems at those runs. The codecs of these runs
-- are simple ones that meet the documented laws.
use i_am_human.Base.{
  ◌+◌, ◌*◌, ◌≤◌, ◌≡◌, ◌⊎◌, refl, true, false, [], ◌∷◌, Option, none, some, replicate, arith,
  if◌then◌else◌, ok, ◌>>=◌, ◌==◌, Ensures, Returns,
}
use i_am_human.Near.{AccountId, Env}
use i_am_human.Near.Keys.{ℕ_key, list_key}
use i_am_human.Near.Text.{Chars}
use i_am_human.Sbt.{ContractMetadata}
use i_am_human.Cost.{mint_cost, mint_deposit}
use i_am_human.Oracle.{Bytes, Claim, Contract, Platform}
use i_am_human.Oracle.Account.{normalize_external_id, is_supported_account}
use i_am_human.Oracle.Mint.{
  class_kyc_sbt, token_metadata, new, sbt_mint, sbt_mint_callback, required_sbt_mint_deposit,
}
use i_am_human.Oracle.Spelling.{normalize_external_id-spelling}
use i_am_human.Oracle.Guards.{
  IsAccepted, minting, use_identity, sbt_mint-accepts, sbt_mint-succeeds,
}
use i_am_human.Oracle.Admin.{admin_mint}
use i_am_human.Oracle.Authority.{refunded, admin_mint-conserves}
use i_am_human.Oracle.Rollback.{are_bytes, HexLaws, sbt_mint-callback_restores}
use i_am_human.Oracle.Identities.{
  World, mints, answers, Reach, here, next, launched, occurrences, sbt_mint-once,
}

-- A claim's bytes: the claimer, the timestamp, 1 for a KYC, the identity.
abbrev parse : Bytes → Option Claim
parse (claimer ∷ timestamp ∷ kyc ∷ id) =
    some (record {
      claimer = claimer;
      external_id = id;
      timestamp = timestamp;
      verified_kyc = kyc == 1;
    })
parse _ = none

-- Accounts with the name "a.b".
abbrev simple : Platform
simple = record {
  b64_decode = some;
  claim_of_bytes = parse;
  hex_decode = λ cs. if are_bytes cs then some cs else none;
  hex_encode = λ b. b;
  ed25519_verify = λ sig bytes key. true;
  other_lowercase = λ c. c ∷ [];
  chars = λ a. 97 ∷ 46 ∷ 98 ∷ [];
}

simple_laws : HexLaws simple
simple_laws = record { decode_bytes = λ cs b h. ground arith; decode-encode = λ b h. rw h refl }

abbrev no_metadata : ContractMetadata
no_metadata = record {
  spec = "oracle";
  name = "oracle";
  symbol = "O";
  icon = none;
  base_uri = none;
  reference = none;
  reference_hash = none;
}

abbrev fresh : Contract
fresh = new [] no_metadata 3 0 9

abbrev call_by : AccountId → Env
call_by account = record {
  predecessor = account;
  now = 5000000;
  attached_deposit = 3 * mint_cost;
  storage_byte_cost = 1;
  prepaid_gas = 100000000000000;
  signer = account;
  current_account = 1;
}

-- Account 5 claims the identity 17, 34 with a KYC.
abbrev claim_text : Chars
claim_text = 5 ∷ 4000 ∷ 1 ∷ 17 ∷ 34 ∷ []

abbrev a_claim : Claim
a_claim = record { claimer = 5; external_id = 17 ∷ 34 ∷ []; timestamp = 4000; verified_kyc = true }

abbrev an_identity : Bytes
an_identity = 17 ∷ 34 ∷ []

abbrev a_signature : Bytes
a_signature = replicate 64 7

accepted : IsAccepted simple (call_by 5) claim_text a_signature fresh a_claim an_identity
unfolding normalize_external_id is_supported_account new
accepted = record {
  bytes = claim_text;
  sig = a_signature;
  bytes_of = refl;
  sig_of = refl;
  claim_of = refl;
  identity = refl;
  sig_length = refl;
  signed = refl;
  no_elections = λ e. absurd (ground (arith, e));
  supported = refl;
  paid = omega arith;
  past = omega arith;
  in_time = omega arith;
  by_signer = refl;
  unused = refl;
}

-- The mint, then a refusal.
minted_run :
    sbt_mint simple (call_by 5) claim_text a_signature fresh
    ≡ ok (minting simple (call_by 5) fresh a_claim an_identity, use_identity an_identity fresh)
unfolding sbt_mint new required_sbt_mint_deposit ◌>>=◌
minted_run = refl

-- The mint of one token, which the registry answers.
abbrev in_flight : World
in_flight = record {
  contract = use_identity an_identity fresh;
  pending = an_identity ∷ [];
  minted = [];
}

abbrev finished : World
finished = record {
  contract = use_identity an_identity fresh;
  pending = [];
  minted = an_identity ∷ [];
}

finished-Reach : Reach simple (launched fresh) finished
unfolding sbt_mint_callback ◌>>=◌
finished-Reach =
    next
      (next here
        (mints (call_by 5) claim_text a_signature an_identity _ _ minted_run refl refl refl))
      (answers [] an_identity [] (some (1 ∷ [])) refl refl refl)

sbt_mint-once_example :
    (occurrences an_identity finished.pending + occurrences an_identity finished.minted ≤ 1)
    × (finished.contract.used_identities an_identity ≡ false
        → occurrences an_identity finished.pending + occurrences an_identity finished.minted ≡ 0)
sbt_mint-once_example =
    sbt_mint-once simple [] no_metadata 3 0 9 finished simple_laws finished-Reach an_identity

sbt_mint-callback_restores_example :
    Returns
      (λ r t. (r ≡ none) × (t ≡ fresh))
      ((sbt_mint simple (call_by 5) claim_text a_signature >>= λ p.
          sbt_mint_callback simple p.external_id none)
        fresh)
sbt_mint-callback_restores_example =
    sbt_mint-callback_restores simple (call_by 5) claim_text a_signature fresh a_claim an_identity
      simple_laws accepted

sbt_mint-succeeds_example :
    Returns
      (λ p t.
        (p ≡ minting simple (call_by 5) fresh a_claim an_identity)
        × (t ≡ use_identity an_identity fresh))
      (sbt_mint simple (call_by 5) claim_text a_signature fresh)
sbt_mint-succeeds_example =
    sbt_mint-succeeds simple (call_by 5) claim_text a_signature fresh a_claim an_identity accepted

sbt_mint-accepts_example :
    Ensures
      (λ p t.
        (claim : Claim) × (id : Bytes) × IsAccepted simple
          (call_by 5)
          claim_text
          a_signature
          fresh
          claim
          id
        × (p ≡ minting simple (call_by 5) fresh claim id)
        × (t ≡ use_identity id fresh))
      (sbt_mint simple (call_by 5) claim_text a_signature fresh)
sbt_mint-accepts_example = sbt_mint-accepts simple (call_by 5) claim_text a_signature fresh

normalize_external_id-spelling_example :
    (normalize_external_id simple (48 ∷ 120 ∷ 97 ∷ 49 ∷ [])
      ≡ normalize_external_id simple (97 ∷ 49 ∷ []))
    × (normalize_external_id simple (48 ∷ 120 ∷ 65 ∷ 49 ∷ [])
        ≡ normalize_external_id simple (97 ∷ 49 ∷ []))
normalize_external_id-spelling_example = normalize_external_id-spelling simple (97 ∷ 49 ∷ []) refl

admin_mint-conserves_example :
    Ensures
      (λ p t.
        (fresh.admins 9 ≡ true)
        × ((class_kyc_sbt ≡ 1) ⊎ (class_kyc_sbt ≡ 2))
        × (t ≡ fresh)
        × (p.deposit + refunded p.refund ≡ 3 * mint_cost)
        × (p.deposit ≡ mint_deposit 1)
        × (p.token_spec ≡ (5, token_metadata class_kyc_sbt 5000000 7 ∷ []) ∷ []))
      (admin_mint (call_by 9) ((5, 7) ∷ []) class_kyc_sbt fresh)
admin_mint-conserves_example = admin_mint-conserves (call_by 9) ((5, 7) ∷ []) class_kyc_sbt fresh
