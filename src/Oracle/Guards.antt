-- ===== src/Oracle/Guards.antt =====
-- What a successful `sbt_mint` of the oracle has checked, what it does, and when it succeeds
-- (contracts/oracle/src/lib.rs).
use i_am_human.Base.{
  ℕ, ◌*◌, ◌/◌, ◌≤◌, ◌<◌, ◌≡◌, ◌⊎◌, refl, Bool, true, false, not, ◌&&◌, [], ◌∷◌, some, length, arith,
  if◌then◌else◌, leb, ltb, Ensures, Ensures-assoc, Ensures-gets, Ensures-require, Ensures-expect,
  Ensures-modify, Ensures-pure, Returns, Returns-assoc, Returns-gets, Returns-require,
  Returns-expect, Returns-modify, Returns-pure,
}
use i_am_human.Near.{Env}
use i_am_human.Near.Words.{add_u64}
use i_am_human.Near.Keys.{list_key}
use i_am_human.Near.Text.{Chars, ends_with}
use i_am_human.Near.Lookup.{add}
use i_am_human.Cost.{mint_cost, calculate_mint_gas}
use i_am_human.Oracle.{Bytes, Claim, Contract, MintPromise, Platform}
use i_am_human.Oracle.Account.{is_supported_account, normalize_external_id, verify_claim}
use i_am_human.Oracle.Mint.{
  elections_start, elections_end, production, required_sbt_mint_deposit, claim_tokens, sbt_mint,
}

-- `mint_deposit 1` and `mint_deposit 2`
abbrev pub price : Bool → ℕ
price kyc = if kyc then 2 * mint_cost else mint_cost

-- The claim that the bytes hold is signed by the authority, is for the signer, and is neither from
-- the future nor expired; its identity is not used; and a paid call outside of the elections.
pub record IsAccepted (platform : Platform) (env : Env) (claim_b64 claim_sig : Chars) (s : Contract)
    (claim : Claim) (id : Bytes) : Type 0 where
  pub bytes : Bytes
  pub sig : Bytes
  pub bytes_of : platform.b64_decode claim_b64 ≡ some bytes
  pub sig_of : platform.b64_decode claim_sig ≡ some sig
  pub claim_of : platform.claim_of_bytes bytes ≡ some claim
  pub identity : normalize_external_id platform claim.external_id ≡ some id
  pub sig_length : length sig ≡ 64
  pub signed : platform.ed25519_verify sig bytes s.authority_pubkey ≡ true
  pub no_elections :
      ends_with (platform.chars env.current_account) production ≡ true
      → (env.now ≤ elections_start) ⊎ (elections_end < env.now)
  pub supported :
      is_supported_account (platform.chars env.current_account) (platform.chars env.signer) ≡ true
  pub paid : price claim.verified_kyc ≤ env.attached_deposit
  pub past : claim.timestamp ≤ env.now / 1000
  pub in_time : env.now / 1000 < add_u64 claim.timestamp s.claim_ttl
  pub by_signer : claim.claimer ≡ env.signer
  pub unused : s.used_identities id ≡ false

-- The promise and the state after an accepted claim.
abbrev pub minting : Platform → Env → Contract → Claim → Bytes → MintPromise
minting platform env s claim id = record {
  token_spec = (claim.claimer, claim_tokens env.now s.sbt_ttl_ms claim.verified_kyc) ∷ [];
  deposit = price claim.verified_kyc;
  gas = calculate_mint_gas (if claim.verified_kyc then 2 else 1);
  external_id = platform.hex_encode id;
}

abbrev pub use_identity : Bytes → Contract → Contract
use_identity id s = record s { used_identities = add id s.used_identities }

no_elections_iff :
    (prod : Bool) (now : ℕ)
    → not (prod && (ltb elections_start now && leb now elections_end)) ≡ true
    → prod ≡ true
    → (now ≤ elections_start) ⊎ (elections_end < now)
no_elections_iff prod now h p = ground arith

not_elections :
    (prod : Bool) (now : ℕ)
    → (prod ≡ true → (now ≤ elections_start) ⊎ (elections_end < now))
    → not (prod && (ltb elections_start now && leb now elections_end)) ≡ true
not_elections false now h = refl
not_elections true now h = ground (arith, h refl)

required-price : (kyc : Bool) → required_sbt_mint_deposit kyc ≡ price kyc
unfolding required_sbt_mint_deposit
required-price true = refl
required-price false = refl

-- A `sbt_mint` that succeeds accepted a claim, and all it changes is that the claim's identity is
-- used; the promise is the one for this claim.
pub sbt_mint-accepts :
    (platform : Platform) (env : Env) (claim_b64 claim_sig : Chars) (s : Contract)
    → Ensures
        (λ p t.
          (claim : Claim) × (id : Bytes) × IsAccepted platform env claim_b64 claim_sig s claim id
          × (p ≡ minting platform env s claim id)
          × (t ≡ use_identity id s))
        (sbt_mint platform env claim_b64 claim_sig s)
unfolding sbt_mint verify_claim
sbt_mint-accepts platform env claim_b64 claim_sig s = Ensures-require _ _ _ _ _ λ elections.
    Ensures-require _ _ _ _ _ λ supported. Ensures-expect _ _ _ _ _ λ bytes b.
      Ensures-expect _ _ _ _ _ λ claim c. Ensures-expect _ _ _ _ _ λ sig d. Ensures-gets _ _ _ _ (
        Ensures-assoc _ _ _ _ _ (
          Ensures-require _ _ _ _ _ λ len. Ensures-require _ _ _ _ _ λ signed.
            Ensures-require _ _ _ _ _ λ paid. Ensures-require _ _ _ _ _ λ past.
              Ensures-gets _ _ _ _ (
                Ensures-require _ _ _ _ _ λ live. Ensures-require _ _ _ _ _ λ mine.
                  Ensures-expect _ _ _ _ _ λ id i. Ensures-gets _ _ _ _ (
                    Ensures-require _ _ _ _ _ λ unused. Ensures-gets _ _ _ _ (
                      Ensures-modify _ _ _ _ (
                        Ensures-pure _ _ _ _ (
                          claim,
                          id,
                          record {
                            bytes = bytes;
                            sig = sig;
                            bytes_of = b;
                            sig_of = d;
                            claim_of = c;
                            identity = i;
                            sig_length = ground (arith, len);
                            signed = signed;
                            no_elections = no_elections_iff _ _ elections;
                            supported = supported;
                            paid = ground (arith, paid, required-price claim.verified_kyc);
                            past = ground (arith, past);
                            in_time = ground (arith, live);
                            by_signer = ground (arith, mine);
                            unused = ground (arith, unused);
                          },
                          rw (required-price claim.verified_kyc) refl,
                          refl,
                        )))))))

-- A claim that meets the conditions is minted, with the promise for it.
pub sbt_mint-succeeds :
    (platform : Platform) (env : Env) (claim_b64 claim_sig : Chars) (s : Contract) (claim : Claim)
    (id : Bytes)
    → IsAccepted platform env claim_b64 claim_sig s claim id
    → Returns
        (λ p t. (p ≡ minting platform env s claim id) × (t ≡ use_identity id s))
        (sbt_mint platform env claim_b64 claim_sig s)
unfolding sbt_mint verify_claim
sbt_mint-succeeds platform env claim_b64 claim_sig s claim id a =
    Returns-require _ _ _ _ _ (not_elections _ _ a.no_elections) (
      Returns-require _ _ _ _ _ a.supported (
        Returns-expect _ _ _ _ _ a.bytes a.bytes_of (
          Returns-expect _ _ _ _ _ claim a.claim_of (
            Returns-expect _ _ _ _ _ a.sig a.sig_of (
              Returns-gets _ _ _ _ (
                Returns-assoc _ _ _ _ _ (
                  Returns-require _ _ _ _ _ (ground (arith, a.sig_length)) (
                    Returns-require _ _ _ _ _ a.signed (
                      Returns-require _ _ _ _ _
                        (ground (arith, a.paid, required-price claim.verified_kyc))
                        (Returns-require _ _ _ _ _ (ground (arith, a.past)) (
                          Returns-gets _ _ _ _ (
                            Returns-require _ _ _ _ _ (ground (arith, a.in_time)) (
                              Returns-require _ _ _ _ _ (ground (arith, a.by_signer)) (
                                Returns-expect _ _ _ _ _ id a.identity (
                                  Returns-gets _ _ _ _ (
                                    Returns-require _ _ _ _ _ (ground (arith, a.unused)) (
                                      Returns-gets _ _ _ _ (
                                        Returns-modify _ _ _ _ (
                                          Returns-pure _ _ _ _ (
                                            rw (required-price claim.verified_kyc) refl,
                                            refl,
                                          ))))))))))))))))))))
