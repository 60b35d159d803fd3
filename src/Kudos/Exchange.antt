-- ===== src/Kudos/Exchange.antt =====
-- The exchange of a kudos for a token: `exchange_kudos_for_sbt` of contracts/kudos/src/public.rs and
-- its callbacks (contracts/kudos/src/callbacks/exchange_kudos_for_sbt.rs). `none` as an answer is a
-- call that failed; the gas of the promises is not modelled.
pub mod Earned
pub mod Flight
use i_am_human.Base.{
  ℕ, ◌+◌, ◌*◌, Bool, true, false, not, Option, none, some, List, [], ◌∷◌, ◌++◌, leb, if◌then◌else◌,
  Tx, ◌>>=◌, ◌>>◌, pure, gets, modify, require, ◌==◌ as nat_eq,
}
use i_am_human.Near.{AccountId, Env}
use i_am_human.Near.Keys.{ℕ_key}
use i_am_human.Near.Text.{Chars}
use i_am_human.Near.Lookup.{add, drop}
use i_am_human.Sbt.{TokenId, TokenMetadata, Sbts}
use i_am_human.Cost.{one_tera}
use i_am_human.Kudos.{
  Contract, Call, KudosId, not_enough_gas, wrong_deposit, already_exchanged, no_minted_tokens,
}
use i_am_human.Kudos.Limits.{acquire_pok_sbt_expire_at_ts}
use i_am_human.Kudos.Json.{
  Reading, Value, build_kudos_upvotes_path, build_kudos_kind_path,
  parse_kudos_and_verify_if_allowed_to_exchange,
}
use i_am_human.Kudos.Owner.{assert_contract_running, database}

-- `PROOF_OF_KUDOS_SBT_MINT_COST`
abbrev pub proof_of_kudos_sbt_mint_cost : ℕ
proof_of_kudos_sbt_mint_cost = 9000000000000000000000

-- `EXCHANGE_KUDOS_STORAGE`
abbrev pub exchange_kudos_storage : ℕ
exchange_kudos_storage = 5 * 8 + 1 + 8

-- `EXCHANGE_KUDOS_COST`. The price of a byte is the constant of the SDK that `env::storage_byte_cost()`
-- answers too.
abbrev pub exchange_kudos_cost : Env → ℕ
exchange_kudos_cost env =
    exchange_kudos_storage * env.storage_byte_cost + proof_of_kudos_sbt_mint_cost

-- `minimum_gas_requirement`
abbrev pub minimum_gas_requirement : ℕ
minimum_gas_requirement = (15 + 12 + 15 + 10 + 10 + 10 + 10 + 5) * one_tera

-- What every callback of an exchange is given.
pub record Exchange : Type 0 where
  pub predecessor_account_id : AccountId
  pub attached_deposit : ℕ
  pub kudos_id : KudosId

-- The promises, each with what its callback gets: `is_human` of the registry for an account and
-- `acquire_number_of_upvotes`; `get` of the database for paths and `on_kudos_upvotes_acquired`;
-- `sbt_mint` of the registry with a deposit and `on_pok_sbt_mint`; a transfer and `on_failure`.
pub data Promise : Type 0 where
  is_human : AccountId → AccountId → Exchange → AccountId → Promise
  get : AccountId → List (List Chars) → Exchange → List Chars → List Chars → Promise
  sbt_mint : AccountId → ℕ → List (AccountId × List TokenMetadata) → Exchange → Promise
  transfer : AccountId → ℕ → Promise

unfoldable pub exchange_kudos_for_sbt : Env → KudosId → Call Promise
exchange_kudos_for_sbt env kudos_id = do
  assert_contract_running
  require not_enough_gas (leb minimum_gas_requirement env.prepaid_gas)
  require wrong_deposit (nat_eq env.attached_deposit (exchange_kudos_cost env))
  exchanged ← gets (λ s. s.exchanged_kudos kudos_id)
  require already_exchanged (not exchanged)
  db ← database
  registry ← gets (λ s. s.iah_registry)
  pure (
      is_human registry env.signer
        (record {
          predecessor_account_id = env.predecessor;
          attached_deposit = env.attached_deposit;
          kudos_id = kudos_id;
        })
        db)

abbrev pub give_back : Exchange → Promise
give_back x = transfer x.predecessor_account_id x.attached_deposit

-- "*"
abbrev pub any_key : Chars
any_key = 42 ∷ []

unfoldable pub acquire_number_of_upvotes :
    Reading → Env → Exchange → AccountId → Option Sbts → Call Promise
acquire_number_of_upvotes reading env x external_db_id none = pure (give_back x)
acquire_number_of_upvotes reading env x external_db_id (some []) = pure (give_back x)
acquire_number_of_upvotes reading env x external_db_id (some (_ ∷ _)) =
    let upvotes_path = build_kudos_upvotes_path reading env.current_account env.signer x.kudos_id in
    let kind_path = build_kudos_kind_path reading env.current_account env.signer x.kudos_id in
    pure (
      get external_db_id ((upvotes_path ++ (any_key ∷ [])) ∷ kind_path ∷ []) x upvotes_path
        kind_path)

unfoldable pub build_pok_sbt_metadata : ℕ → ℕ → TokenMetadata
build_pok_sbt_metadata issued_at expires_at = record {
  class = 1;
  issued_at = some issued_at;
  expires_at = some expires_at;
  reference = none;
  reference_hash = none;
}

-- The `Ok` arm.
unfoldable pub mint_proof : Env → Exchange → TokenMetadata → Call Promise
mint_proof env x metadata = do
  modify (λ s. record s { exchanged_kudos = add x.kudos_id s.exchanged_kudos })
  registry ← gets (λ s. s.iah_registry)
  pure (sbt_mint registry proof_of_kudos_sbt_mint_cost ((env.signer, metadata ∷ []) ∷ []) x)

abbrev pub mint_until : Env → Exchange → Option ℕ → Call Promise
mint_until env x none = pure (give_back x)
mint_until env x (some expires_at) = mint_proof env x (build_pok_sbt_metadata env.now expires_at)

unfoldable pub on_kudos_upvotes_acquired :
    Reading → Env → Exchange → List Chars → List Chars → Option Value → Call Promise
on_kudos_upvotes_acquired reading env x upvotes_path kind_path answer = do
  settings ← gets (λ s. s.settings)
  (if parse_kudos_and_verify_if_allowed_to_exchange reading answer upvotes_path kind_path
        settings.min_number_of_upvotes_to_exchange_kudos
      then mint_until env x (acquire_pok_sbt_expire_at_ts settings env.now)
      else pure (give_back x))

-- What it answers: the tokens, or the promise of the transfer.
pub data Outcome : Type 0 where
  minted : List TokenId → Outcome
  promised : Promise → Outcome

unfoldable pub on_pok_sbt_mint : Exchange → Option (List TokenId) → Call Outcome
on_pok_sbt_mint x (some []) = do require no_minted_tokens false; pure (minted [])
on_pok_sbt_mint x (some (t ∷ ts)) = pure (minted (t ∷ ts))
on_pok_sbt_mint x none = do
  modify (λ s. record s { exchanged_kudos = drop x.kudos_id s.exchanged_kudos })
  pure (promised (give_back x))
