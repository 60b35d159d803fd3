-- ===== src/Registry/Tables.antt =====
-- Reads and updates of the registry's tables that several operations make
-- (contracts/registry/src/lib.rs).
pub mod Rules
use i_am_human.Base.{ℕ, Option, none, some, List, ◌>>=◌, ◌>>◌, pure, gets, modify, expect}
use i_am_human.Near.{AccountId}
use i_am_human.Near.Words.{sub_u64}
use i_am_human.Near.Lookup.{insert, remove}
use i_am_human.Near.Keys.{ℕ_key, pair_key}
use i_am_human.Near.Tree
use i_am_human.Sbt.{TokenId, ClassId, TokenData, TokenMetadata, v1}
use i_am_human.Registry.{Contract, Call, token_not_found, no_supply}
use i_am_human.Registry.Keys.{IssuerId, token_id, token_key, balance_key, balance_ord}

unfoldable pub get_token : IssuerId → TokenId → Call TokenData
get_token issuer_id token = do
  o ← gets (λ s. s.issuer_tokens (token_id issuer_id token))
  expect token_not_found o

-- Writes a token's record.
abbrev pub put_token : IssuerId → TokenId → TokenData → Contract → Contract
put_token issuer_id token td s = record s {
  issuer_tokens = insert (token_id issuer_id token) td s.issuer_tokens;
}

-- Forgets a token: its record and its owner's balance.
abbrev pub drop_token : AccountId → IssuerId → ClassId → TokenId → Contract → Contract
drop_token owner issuer_id class token s = record s {
  issuer_tokens = remove (token_id issuer_id token) s.issuer_tokens;
  balances = Tree.remove (balance_key owner issuer_id class) s.balances;
}

-- Supplies that fall; the map's entry is unwrapped.
unfoldable pub decrease_class : IssuerId → ClassId → ℕ → Call (Unit {0})
decrease_class issuer_id class n = do
  o ← gets (λ s. s.supply_by_class (issuer_id, class))
  supply ← expect no_supply o
  modify (λ s. record s {
    supply_by_class = insert (issuer_id, class) (sub_u64 supply n) s.supply_by_class;
  })

unfoldable pub decrease_owner : AccountId → IssuerId → ℕ → Call (Unit {0})
decrease_owner owner issuer_id n = do
  o ← gets (λ s. s.supply_by_owner (owner, issuer_id))
  supply ← expect no_supply o
  modify (λ s. record s {
    supply_by_owner = insert (owner, issuer_id) (sub_u64 supply n) s.supply_by_owner;
  })

unfoldable pub decrease_issuer : IssuerId → ℕ → Call (Unit {0})
decrease_issuer issuer_id n = do
  o ← gets (λ s. s.supply_by_issuer issuer_id)
  supply ← expect no_supply o
  modify
      (λ s. record s { supply_by_issuer = insert issuer_id (sub_u64 supply n) s.supply_by_issuer })
