-- ===== src/Registry/Transfer.antt =====
-- The soul transfer: `_sbt_soul_transfer` and what it calls (contracts/registry/src/lib.rs).
pub mod Batch
pub mod Halfway
pub mod Steps
pub mod Loop
pub mod Frame
pub mod Validity
pub mod Guards
use i_am_human.Base.{
  ℕ, ◌+◌, ◌-◌, ◌%◌, Bool, true, false, not, ◌&&◌, ◌||◌, Option, none, some, List, [], ◌∷◌, leb, ltb,
  is_some, take, get_elem?, unwrap_or, if◌then◌else◌, ◌>>=◌, ◌>>◌, pure, gets, modify, require,
  expect, ◌==◌,
}
use i_am_human.Near.{AccountId, Env}
use i_am_human.Near.Words.{u32_mod, add_u64}
use i_am_human.Near.Keys.{ℕ_key, pair_key}
use i_am_human.Near.Lookup
use i_am_human.Near.Lookup.{insert, add}
use i_am_human.Near.Tree
use i_am_human.Sbt.{TokenId, ClassId, TokenData, soul_transfer, ban}
use i_am_human.Registry.{
  Contract, Call, AccountFlag, blacklisted, verified, gov_ban, emit, nep393, transfer_locked,
  flag_conflict, from_is_banned, recipient_has_sbt, token_not_found, out_of_bounds,
}
use i_am_human.Registry.Keys.{
  IssuerId, IssuerTokenId, BalanceKey, token_id, token_key, balance_key, balance_ord,
}
use i_am_human.Registry.Admin.{assert_not_banned}

abbrev pub flag_eq : AccountFlag → AccountFlag → Bool
flag_eq blacklisted blacklisted = true
flag_eq verified verified = true
flag_eq gov_ban gov_ban = true
flag_eq _ _ = false

abbrev pub copy_flag : AccountId → Option AccountFlag → Option AccountFlag → Call (Unit {0})
copy_flag recipient none flag_to = pure tt
copy_flag recipient (some flag_from) none =
    modify (λ s. record s { flagged = insert recipient flag_from s.flagged })
copy_flag recipient (some flag_from) (some flag_to) =
    require flag_conflict (flag_eq flag_from flag_to)

-- `_transfer_flag`
unfoldable pub transfer_flag : AccountId → AccountId → Call (Unit {0})
transfer_flag from recipient = do
  flag_from ← gets (λ s. s.flagged from)
  flag_to ← gets (λ s. s.flagged recipient)
  copy_flag recipient flag_from flag_to

-- `banlist.insert(owner)` and the `Ban` event.
abbrev pub ban_account : AccountId → Call (Unit {0})
ban_account owner = do
  banned ← gets (λ s. s.banlist owner)
  modify (λ s. record s { banlist = add owner s.banlist })
  require from_is_banned (not banned)
  emit (nep393 (ban (owner ∷ [])))

unfoldable pub start_transfer_with_continuation : AccountId → AccountId → Bool → Call IssuerTokenId
unfolding assert_not_banned
start_transfer_with_continuation owner recipient ban_owner = do
  assert_not_banned recipient
  if ban_owner then ban_account owner else pure tt
  pure (token_id 0 0)

-- Whether an earlier call is resumed, and the last key that it moved (its class in `token`).
unfoldable pub transfer_continuation : AccountId → AccountId → Bool → Call (Bool × IssuerTokenId)
unfolding start_transfer_with_continuation
transfer_continuation from to ban_owner = do
  ongoing ← gets (λ s. s.ongoing_soul_tx from)
  elim ongoing [
    | none ↦ (do start ← start_transfer_with_continuation from to ban_owner; pure (false, start))
    | some s ↦ pure (true, s)
  ]

-- Moves the whole supply of one issuer, if the owner has one recorded.
abbrev pub add_supply : AccountId → IssuerId → Option ℕ → Contract → Contract
add_supply recipient issuer_id none s = s
add_supply recipient issuer_id (some n) s = record s {
  supply_by_owner =
      insert (recipient, issuer_id)
        (add_u64 n (unwrap_or 0 (s.supply_by_owner (recipient, issuer_id)))) s.supply_by_owner;
}

unfoldable pub move_supply : AccountId → AccountId → IssuerId → Call (Unit {0})
move_supply owner recipient issuer_id = do
  n ← gets (λ s. s.supply_by_owner (owner, issuer_id))
  modify (λ s. record s { supply_by_owner = Lookup.remove (owner, issuer_id) s.supply_by_owner })
  modify (add_supply recipient issuer_id n)

-- Moves one balance and the record of its token.
unfoldable pub move_token : AccountId → BalanceKey → TokenId → Call (Unit {0})
move_token recipient key token = do
  old ← gets (λ s. Tree.lookup (balance_key recipient key.issuer_id key.class_id) s.balances)
  modify (λ s. record s {
    balances = Tree.insert (balance_key recipient key.issuer_id key.class_id) token s.balances;
  })
  require recipient_has_sbt (not (is_some old))
  modify (λ s. record s { balances = Tree.remove key s.balances })
  o ← gets (λ s. s.issuer_tokens (token_id key.issuer_id token))
  td ← expect token_not_found o
  modify (λ s. record s {
    issuer_tokens =
        insert (token_id key.issuer_id token) (record td { owner = recipient }) s.issuer_tokens;
  })

-- The loop over the batch; returns the number of tokens moved.
unfoldable pub move_each :
    AccountId → AccountId → IssuerId → ℕ → List (BalanceKey × TokenId) → Call ℕ
unfolding move_supply move_token
move_each owner recipient prev_issuer counter [] = pure counter
move_each owner recipient prev_issuer counter ((key, token) ∷ batch) =
    if not (key.owner == owner) then pure counter else (do
      if prev_issuer == key.issuer_id then pure tt else move_supply owner recipient key.issuer_id
      move_token recipient key token
      move_each owner recipient key.issuer_id (counter + 1) batch)

-- The bookkeeping after the batch.
unfoldable pub finish_transfer :
    AccountId → AccountId → Bool → ℕ → ℕ → List (BalanceKey × TokenId) → Call Bool
finish_transfer owner recipient resumed counter limit batch =
    if not (counter == limit)
    then (do
      if resumed
          then modify (λ s. record s { ongoing_soul_tx = Lookup.remove owner s.ongoing_soul_tx })
          else pure tt
      if resumed || ltb 0 counter then emit (nep393 (soul_transfer owner recipient)) else pure tt
      pure true)
    else (do
      last ← expect out_of_bounds (get_elem? batch (counter - 1))
      modify (λ s. record s {
        ongoing_soul_tx =
            insert owner (token_id last.0.issuer_id last.0.class_id) s.ongoing_soul_tx;
      })
      pure false)

-- `_sbt_soul_transfer`
unfoldable pub soul_transfer_up_to : Env → AccountId → ℕ → Call (ℕ × Bool)
unfolding transfer_continuation transfer_flag move_each finish_transfer
soul_transfer_up_to env recipient limit = do
  let owner = env.predecessor
  lock ← gets (λ s. unwrap_or 0 (s.transfer_locks owner))
  require transfer_locked (not (leb env.now lock))
  c ← transfer_continuation owner recipient true
  if c.0 then pure tt else transfer_flag owner recipient
  batch ←
      gets (λ s. take limit (Tree.iter_from (balance_key owner c.1.issuer_id c.1.token) s.balances))
  counter ← move_each owner recipient 0 0 batch
  completed ← finish_transfer owner recipient c.0 counter limit batch
  pure (counter % u32_mod, completed)

unfoldable pub sbt_soul_transfer : Env → AccountId → Call (ℕ × Bool)
unfolding soul_transfer_up_to
sbt_soul_transfer env recipient = soul_transfer_up_to env recipient 20
