-- ===== src/Clients/DemoIssuer.antt =====
-- The demonstration issuer (contracts/demo-issuer/src/lib.rs). A memo is only logged.
use i_am_human.Base.{
  ℕ, ◌*◌, List, [], ◌∷◌, Option, none, some, if◌then◌else◌, Tx, ◌>>=◌, ◌>>◌, pure, gets, modify,
  require, expect, ◌==◌ as nat_eq,
}
use i_am_human.Near.{AccountId, Env}
use i_am_human.Near.Words.{add_u64}
use i_am_human.Near.Keys.{ℕ_key}
use i_am_human.Near.Lookup.{LookupSet, empty_set, add}
use i_am_human.Sbt.{TokenId, ContractMetadata, TokenMetadata}
use i_am_human.Cost.{mint_cost, mint_gas}

pub record Contract : Type 0 where
  pub metadata : ContractMetadata
  pub registry : AccountId
  pub claim_ttl : ℕ
  pub sbt_ttl_ms : ℕ
  pub admins : LookupSet AccountId

-- The panics.
pub data IssuerError : Type 0 where
  not_admin wrong_deposit mint_failed : IssuerError

abbrev pub Call : Type 0 → Type 0
Call A = Tx IssuerError Contract A

unfoldable pub new : ContractMetadata → AccountId → ℕ → AccountId → Contract
new metadata registry claim_ttl admin = record {
  metadata = metadata;
  registry = registry;
  claim_ttl = if nat_eq claim_ttl 0 then 3600 * 24 else claim_ttl;
  sbt_ttl_ms = 1000 * 3600 * 24 * 365;
  admins = add admin empty_set;
}

unfoldable pub assert_admin : Env → Call (Unit {0})
assert_admin env = do is_admin ← gets (λ s. s.admins env.predecessor); require not_admin is_admin

-- The promise: the registry's `sbt_mint` with its argument, deposit and gas, then the callback.
pub record MintPromise : Type 0 where
  pub token_spec : List (AccountId × List TokenMetadata)
  pub deposit : ℕ
  pub gas : ℕ

unfoldable pub sbt_mint : Env → AccountId → Call MintPromise
unfolding assert_admin
sbt_mint env receiver = do
  assert_admin env
  require wrong_deposit (nat_eq env.attached_deposit mint_cost)
  ttl ← gets (λ s. s.sbt_ttl_ms)
  let metadata : TokenMetadata = record {
    class = 1;
    issued_at = some env.now;
    expires_at = some (add_u64 env.now ttl);
    reference = none;
    reference_hash = none;
  }
  pure (record { token_spec = (receiver, metadata ∷ []) ∷ []; deposit = mint_cost; gas = mint_gas })

unfoldable pub sbt_mint_callback : Option (List TokenId) → Call (List TokenId)
sbt_mint_callback last_result = expect mint_failed last_result

unfoldable pub add_admin : Env → AccountId → Call (Unit {0})
unfolding assert_admin
add_admin env account = do
  assert_admin env
  modify (λ s. record s { admins = add account s.admins })
