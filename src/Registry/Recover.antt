-- ===== src/Registry/Recover.antt =====
-- Recovery by an issuer: `_sbt_recover` (contracts/registry/src/lib.rs).
use i_am_human.Base.{
  ℕ, Bool, true, false, not, ◌||◌, List, [], ◌∷◌, ◌++◌, leb, ltb, take, unwrap_or, if◌then◌else◌,
  ◌>>=◌, ◌>>◌, pure, gets, modify, require, expect, ◌==◌, ◌*◌, ◌%◌, ◌^◌,
}
use i_am_human.Near.{AccountId, Env}
use i_am_human.Near.Words.{add_u64, sub_u64}
use i_am_human.Near.Keys.{ℕ_key, pair_key}
use i_am_human.Near.Lookup
use i_am_human.Near.Lookup.{insert}
use i_am_human.Near.Tree
use i_am_human.Sbt.{TokenId, ClassId, class_id, recover}
use i_am_human.Registry.{Contract, Call, emit, nep393, no_balance, low_deposit}
use i_am_human.Registry.Keys.{IssuerId, BalanceKey, token_id, token_key, balance_key, balance_ord}
use i_am_human.Registry.Admin.{assert_issuer, assert_not_banned}
use i_am_human.Registry.Tables.{get_token, put_token}
use i_am_human.Registry.Transfer.{transfer_continuation}

-- The variables of the first loop.
pub record Recovering : Type 0 where
  pub tokens_recovered : ℕ
  pub class_ids : List ClassId
  pub last_token_transfered : BalanceKey

-- The first loop: the records get their new owner.
unfoldable pub recover_each :
    AccountId → IssuerId → AccountId → List (BalanceKey × TokenId) → Recovering → Call Recovering
unfolding get_token
recover_each from issuer_id to [] a = pure a
recover_each from issuer_id to ((key, token) ∷ entries) a =
    if not (key.owner == from) || not (key.issuer_id == issuer_id) then pure a else (do
      t ← get_token key.issuer_id token
      modify (put_token issuer_id token (record t { owner = to }))
      recover_each from issuer_id to entries (record {
        tokens_recovered = add_u64 a.tokens_recovered 1;
        class_ids = a.class_ids ++ class_id t.metadata ∷ [];
        last_token_transfered = key;
      }))

-- The second loop: the balances move.
unfoldable pub rebalance : AccountId → IssuerId → AccountId → List ClassId → Call (Unit {0})
rebalance from issuer_id to [] = pure tt
rebalance from issuer_id to (class ∷ class_ids) = do
  o ← gets (λ s. Tree.lookup (balance_key from issuer_id class) s.balances)
  modify (λ s. record s { balances = Tree.remove (balance_key from issuer_id class) s.balances })
  token ← expect no_balance o
  modify
      (λ s. record s { balances = Tree.insert (balance_key to issuer_id class) token s.balances })
  rebalance from issuer_id to class_ids

unfoldable pub take_supply : AccountId → IssuerId → ℕ → Call (Unit {0})
take_supply from issuer_id n = do
  old ← gets (λ s. unwrap_or 0 (s.supply_by_owner (from, issuer_id)))
  modify (λ s. record s { supply_by_owner = Lookup.remove (from, issuer_id) s.supply_by_owner })
  if old == n
      then pure tt
      else modify (λ s. record s {
        supply_by_owner = insert (from, issuer_id) (sub_u64 old n) s.supply_by_owner;
      })

unfoldable pub give_supply : AccountId → IssuerId → ℕ → Call (Unit {0})
give_supply to issuer_id n = modify (λ s. record s {
  supply_by_owner =
      insert (to, issuer_id) (add_u64 (unwrap_or 0 (s.supply_by_owner (to, issuer_id))) n)
        s.supply_by_owner;
})

unfoldable pub finish_recover : Env → AccountId → AccountId → Bool → ℕ → Recovering → Call Bool
finish_recover env from to resumed limit a =
    if not (a.tokens_recovered == limit)
    then (do
      if resumed
          then modify (λ s. record s { ongoing_soul_tx = Lookup.remove from s.ongoing_soul_tx })
          else pure tt
      if resumed || ltb 0 a.tokens_recovered
          then emit (nep393 (recover env.predecessor from to))
          else pure tt
      pure true)
    else (do
      modify (λ s. record s {
        ongoing_soul_tx =
            insert from
              (token_id a.last_token_transfered.issuer_id a.last_token_transfered.class_id)
              s.ongoing_soul_tx;
      })
      pure false)

-- The host's account of the bytes that the state takes: `env::storage_usage()`.
module _ (storage_usage : Contract → ℕ) where
  -- The storage may also shrink; then nothing is due.
  unfoldable pub check_growth : Env → ℕ → Call (Unit {0})
  check_growth env start = do
    usage ← gets storage_usage
    require low_deposit (
        not (ltb start usage)
        || leb (sub_u64 usage start * env.storage_byte_cost % 2 ^ 128) env.attached_deposit)

  -- `_sbt_recover`
  unfoldable pub recover_up_to : Env → AccountId → AccountId → ℕ → Call (ℕ × Bool)
  unfolding assert_issuer assert_not_banned transfer_continuation recover_each rebalance take_supply
      give_supply finish_recover check_growth
  recover_up_to env from to limit = do
    storage_start ← gets storage_usage
    issuer_id ← assert_issuer env.predecessor
    assert_not_banned to
    c ← transfer_continuation from to false
    entries ←
        gets (λ s. take limit (Tree.iter_from (balance_key from issuer_id c.1.token) s.balances))
    a ← recover_each from issuer_id to entries (record {
      tokens_recovered = 0;
      class_ids = [];
      last_token_transfered = balance_key from issuer_id 0;
    })
    rebalance from issuer_id to a.class_ids
    take_supply from issuer_id a.tokens_recovered
    give_supply to issuer_id a.tokens_recovered
    completed ← finish_recover env from to c.0 limit a
    check_growth env storage_start
    pure (a.tokens_recovered % 2 ^ 32, completed)

  unfoldable pub sbt_recover : Env → AccountId → AccountId → Call (ℕ × Bool)
  unfolding recover_up_to
  sbt_recover env from to = recover_up_to env from to 20
