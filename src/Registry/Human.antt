-- ===== src/Registry/Human.antt =====
-- The proof of humanity, and the calls that need one (contracts/registry/src/lib.rs).
pub mod Listing
pub mod Sound
pub mod Reads
pub mod Lock
pub mod Minting
pub mod Barred
use i_am_human.Base.{
  ℕ, Bool, true, false, not, ◌||◌, Option, none, some, List, [], ◌∷◌, ◌++◌, String, ltb, is_empty,
  unwrap_or, if◌then◌else◌, ◌>>=◌, ◌>>◌, pure, gets, modify, require, expect, ◌&&◌, ◌==◌, Tx,
  Result, err,
}
use i_am_human.Near.{AccountId, Env}
use i_am_human.Near.Words.{add_u64, sub_u64}
use i_am_human.Near.Keys.{ℕ_key}
use i_am_human.Near.Lookup.{insert}
use i_am_human.Sbt.{TokenId, ClassId, Sbts, OwnedToken}
use i_am_human.Registry.{
  Contract, Call, AccountFlag, blacklisted, verified, gov_ban, emit, transfer_lock, not_human,
  out_of_bounds, bad_json,
}
use i_am_human.Registry.Query.{sbt_tokens_by_owner}
use i_am_human.Registry.Mint.{TokenSpec, mint_spec}

abbrev pub is_blacklisted : Option AccountFlag → Bool
is_blacklisted (some blacklisted) = true
is_blacklisted (some verified) = false
is_blacklisted (some gov_ban) = false
is_blacklisted none = false

-- `tokens[0].1[0]`, if `tokens` is not empty.
unfoldable pub first_token : List (AccountId × List OwnedToken) → Call (Option OwnedToken)
first_token [] = pure none
first_token ((_, []) ∷ rest) = expect out_of_bounds none
first_token ((_, t ∷ ts) ∷ rest) = pure (some t)

abbrev pub is_of_class : ClassId → Option OwnedToken → Bool
is_of_class cls none = false
is_of_class cls (some t) = t.metadata.class == cls

abbrev pub token_number : Option OwnedToken → TokenId
token_number none = 0
token_number (some t) = t.token

-- The loop over the required classes: the tokens found, or `none` once a class is missing.
unfoldable pub collect_proof :
    Env → AccountId → AccountId → List ClassId → List TokenId → Call (Option (List TokenId))
unfolding sbt_tokens_by_owner first_token
collect_proof env account issuer [] proof = pure (some proof)
collect_proof env account issuer (cls ∷ classes) proof = do
  tokens ← sbt_tokens_by_owner env account (some issuer) (some cls) (some 1) none
  t ← first_token tokens
  if is_of_class cls t
      then collect_proof env account issuer classes (proof ++ token_number t ∷ [])
      else pure none

abbrev pub to_sbts : AccountId → Option (List TokenId) → Sbts
to_sbts issuer none = []
to_sbts issuer (some proof) = (issuer, proof) ∷ []

-- `_is_human`
unfoldable pub is_human : Env → AccountId → Call Sbts
unfolding collect_proof
is_human env account = do
  barred ← gets (λ s. is_blacklisted (s.flagged account) || s.banlist account)
  iah ← gets (λ s. s.iah_sbts)
  if barred
      then pure []
      else (do proof ← collect_proof env account iah.0 iah.1 []; pure (to_sbts iah.0 proof))

unfoldable pub is_human_bool : Env → AccountId → Call Bool
unfolding is_human
is_human_bool env account = do proof ← is_human env account; pure (not (is_empty proof))

-- The check of `sbt_mint_iah`: every recipient must be human.
unfoldable pub assert_humans : Env → TokenSpec → Call (Unit {0})
unfolding is_human
assert_humans env [] = pure tt
assert_humans env ((account, _) ∷ spec) = do
  proof ← is_human env account
  require not_human (not (is_empty proof))
  assert_humans env spec

unfoldable pub sbt_mint_iah : (Contract → ℕ) → Env → TokenSpec → Call (List TokenId)
unfolding assert_humans mint_spec
sbt_mint_iah usage env spec = do assert_humans env spec; mint_spec usage env env.predecessor spec

abbrev pub is_human_gas : ℕ
is_human_gas = 12000000000000

-- The promise that a verified call makes: the function call with its arguments.
pub record Promise : Type 0 where
  pub ctr : AccountId
  pub function : String
  pub caller : AccountId
  -- in `is_human_call_lock` only
  pub locked_until : Option ℕ
  pub iah_proof : Option Sbts
  pub payload : String
  pub deposit : ℕ
  pub gas : ℕ

-- Extends the caller's lock, if that makes it longer, and returns it.
unfoldable pub extend_lock : Env → ℕ → Call ℕ
extend_lock env duration = do
  lock ← gets (λ s. unwrap_or env.now (s.transfer_locks env.predecessor))
  if ltb 0 duration && ltb lock (add_u64 env.now duration)
      then (do
        modify (λ s. record s {
          transfer_locks = insert env.predecessor (add_u64 env.now duration) s.transfer_locks;
        })
        emit (transfer_lock env.predecessor (add_u64 env.now duration))
        pure (add_u64 env.now duration))
      else pure lock

-- `valid_json` is the JSON parser's verdict on a payload, `RawValue::from_string`.
module _ (valid_json : String → Bool) where
  unfoldable pub is_human_call : Env → AccountId → String → String → Call Promise
  unfolding is_human
  is_human_call env ctr function payload = do
    proof ← is_human env env.predecessor
    require not_human (not (is_empty proof))
    require bad_json (valid_json payload)
    pure (record {
      ctr = ctr;
      function = function;
      caller = env.predecessor;
      locked_until = none;
      iah_proof = some proof;
      payload = payload;
      deposit = env.attached_deposit;
      gas = sub_u64 env.prepaid_gas is_human_gas;
    })

  unfoldable pub is_human_call_lock : Env → AccountId → String → String → ℕ → Bool → Call Promise
  unfolding is_human extend_lock
  is_human_call_lock env ctr function payload duration with_proof = do
    proof ← is_human env env.predecessor
    require not_human (not (is_empty proof))
    lock ← extend_lock env duration
    require bad_json (valid_json payload)
    pure (record {
      ctr = ctr;
      function = function;
      caller = env.predecessor;
      locked_until = some lock;
      iah_proof = if with_proof then some proof else none;
      payload = payload;
      deposit = env.attached_deposit;
      gas = sub_u64 env.prepaid_gas is_human_gas;
    })
