-- ===== src/Registry/Revoke.antt =====
-- Revocation by an issuer: `sbt_revoke` and `sbt_revoke_by_owner`
-- (contracts/registry/src/registry.rs, lib.rs).
use i_am_human.Base.{
  ℕ, Bool, true, false, ◌&&◌, Option, none, some, List, [], ◌∷◌, length, is_empty, take, map, ltb,
  unwrap_or, if◌then◌else◌, ◌>>=◌, ◌>>◌, pure, gets, modify, expect, ◌==◌,
}
use i_am_human.Near.{AccountId, Env}
use i_am_human.Near.Words.{sub_u64}
use i_am_human.Near.Keys.{ℕ_key, pair_key}
use i_am_human.Near.Lookup.{insert}
use i_am_human.Near.Tree
use i_am_human.Sbt.{TokenId, ClassId, OwnedToken, TokenMetadata, v1, class_id, burn, revoke}
use i_am_human.Registry.{Contract, Call, emit, nep393, nothing_to_revoke}
use i_am_human.Registry.Keys.{IssuerId, BalanceKey, balance_key, balance_ord}
use i_am_human.Registry.Admin.{assert_issuer}
use i_am_human.Registry.Tally.{tally}
use i_am_human.Registry.Tables.{get_token, put_token, drop_token, decrease_class, decrease_owner}
use i_am_human.Registry.Renew.{set_expiry}
use i_am_human.Registry.Query.{sbt_tokens_by_owner, sbt_supply_by_owner}

-- The tables `revoked_per_class` and `revoked_per_owner`.
pub record Revoking : Type 0 where
  pub per_class : List (ClassId × ℕ)
  pub per_owner : List (AccountId × ℕ)

-- The loop of a burning `sbt_revoke`.
unfoldable pub revoke_each : IssuerId → List TokenId → Revoking → Call Revoking
unfolding get_token
revoke_each issuer_id [] a = pure a
revoke_each issuer_id (token ∷ tokens) a = do
  t ← get_token issuer_id token
  modify (drop_token t.owner issuer_id (class_id t.metadata) token)
  revoke_each issuer_id tokens (record {
    per_class = tally (class_id t.metadata) a.per_class;
    per_owner = tally t.owner a.per_owner;
  })

unfoldable pub decrease_owners : IssuerId → List (AccountId × ℕ) → Call (Unit {0})
unfolding decrease_owner
decrease_owners issuer_id [] = pure tt
decrease_owners issuer_id ((owner, n) ∷ m) = do
  decrease_owner owner issuer_id n
  decrease_owners issuer_id m

unfoldable pub decrease_classes : IssuerId → List (ClassId × ℕ) → Call (Unit {0})
unfolding decrease_class
decrease_classes issuer_id [] = pure tt
decrease_classes issuer_id ((class, n) ∷ m) = do
  decrease_class issuer_id class n
  decrease_classes issuer_id m

-- As `decrease_issuer`, but a missing supply is read as 0.
unfoldable pub reduce_issuer : IssuerId → ℕ → Call (Unit {0})
reduce_issuer issuer_id n = modify (λ s. record s {
  supply_by_issuer =
      insert issuer_id (sub_u64 (unwrap_or 0 (s.supply_by_issuer issuer_id)) n) s.supply_by_issuer;
})

-- The loop of an `sbt_revoke` that does not burn.
unfoldable pub expire_each : IssuerId → ℕ → List TokenId → Call (Unit {0})
unfolding get_token
expire_each issuer_id now [] = pure tt
expire_each issuer_id now (token ∷ tokens) = do
  t ← get_token issuer_id token
  modify (put_token issuer_id token (set_expiry now t))
  expire_each issuer_id now tokens

unfoldable pub revoke_burning : Env → IssuerId → List TokenId → Call (Unit {0})
unfolding revoke_each decrease_owners decrease_classes reduce_issuer
revoke_burning env issuer_id tokens = do
  a ← revoke_each issuer_id tokens (record { per_class = []; per_owner = [] })
  decrease_owners issuer_id a.per_owner
  decrease_classes issuer_id a.per_class
  reduce_issuer issuer_id (length tokens)
  emit (nep393 (burn env.predecessor tokens))

unfoldable pub sbt_revoke : Env → List TokenId → Bool → Call (Unit {0})
unfolding assert_issuer revoke_burning expire_each
sbt_revoke env tokens with_burn = do
  issuer_id ← assert_issuer env.predecessor
  if with_burn then revoke_burning env issuer_id tokens else expire_each issuer_id env.now tokens
  emit (nep393 (revoke env.predecessor tokens))

-- `take_while` of `sbt_token_ids_by_owner`.
unfoldable pub take_owned :
    AccountId → IssuerId → List (BalanceKey × TokenId) → List (TokenId × ClassId)
take_owned account issuer_id [] = []
take_owned account issuer_id ((key, token) ∷ entries) =
    let rest = take_owned account issuer_id entries in
    if key.owner == account && key.issuer_id == issuer_id then (token, key.class_id) ∷ rest else []

-- Its limit is never 0 here.
unfoldable pub sbt_token_ids_by_owner :
    AccountId → IssuerId → ℕ → Contract → List (TokenId × ClassId)
unfolding take_owned
sbt_token_ids_by_owner account issuer_id limit s =
    take limit
      (take_owned account issuer_id (Tree.iter_from (balance_key account issuer_id 0) s.balances))

-- The loop of a burning `sbt_revoke_by_owner`.
unfoldable pub drop_each :
    AccountId → IssuerId → List (TokenId × ClassId) → List (ClassId × ℕ) → Call (List (ClassId × ℕ))
drop_each owner issuer_id [] a = pure a
drop_each owner issuer_id ((token, class) ∷ tokens) a = do
  modify (drop_token owner issuer_id class token)
  drop_each owner issuer_id tokens (tally class a)

unfoldable pub reduce_owner : AccountId → IssuerId → ℕ → Call (Unit {0})
reduce_owner owner issuer_id n = modify (λ s. record s {
  supply_by_owner =
      insert (owner, issuer_id) (sub_u64 (unwrap_or 0 (s.supply_by_owner (owner, issuer_id))) n)
        s.supply_by_owner;
})

unfoldable pub reduce_classes : IssuerId → List (ClassId × ℕ) → Call (Unit {0})
reduce_classes issuer_id [] = pure tt
reduce_classes issuer_id ((class, n) ∷ m) = do
  modify (λ s. record s {
    supply_by_class =
        insert (issuer_id, class) (sub_u64 (unwrap_or 0 (s.supply_by_class (issuer_id, class))) n)
          s.supply_by_class;
  })
  reduce_classes issuer_id m

unfoldable pub burn_owned : Env → IssuerId → AccountId → List (TokenId × ClassId) → Call Bool
unfolding drop_each reduce_owner reduce_issuer reduce_classes sbt_supply_by_owner
burn_owned env issuer_id owner tokens = do
  per_class ← drop_each owner issuer_id tokens []
  reduce_owner owner issuer_id (length tokens)
  reduce_issuer issuer_id (length tokens)
  reduce_classes issuer_id per_class
  emit (nep393 (burn env.predecessor (map (λ t. t.0) tokens)))
  emit (nep393 (revoke env.predecessor (map (λ t. t.0) tokens)))
  gets (λ s. sbt_supply_by_owner owner env.predecessor none s == 0)

-- `MAX_REVOKE_PER_CALL`
abbrev pub max_revoke_per_call : ℕ
max_revoke_per_call = 25

-- `.pop().unwrap()`: the last group of a listing.
abbrev pub last_group : List (AccountId × List OwnedToken) → Option (List OwnedToken)
last_group [] = none
last_group ((_, tokens) ∷ []) = some tokens
last_group (g ∷ h ∷ rest) = last_group (h ∷ rest)

abbrev pub expired_at : ℕ → TokenMetadata → TokenMetadata
expired_at now m = record m { expires_at = some now }

-- The loop of an `sbt_revoke_by_owner` that does not burn.
unfoldable pub expire_owned : AccountId → IssuerId → ℕ → List OwnedToken → Call (Unit {0})
expire_owned owner issuer_id now [] = pure tt
expire_owned owner issuer_id now (t ∷ tokens) = do
  modify (
      put_token issuer_id t.token
        (record { owner = owner; metadata = v1 (expired_at now t.metadata) }))
  expire_owned owner issuer_id now tokens

unfoldable pub revoke_owned : Env → IssuerId → AccountId → List OwnedToken → Call Bool
unfolding expire_owned
revoke_owned env issuer_id owner tokens = if is_empty tokens then pure true else (do
  expire_owned owner issuer_id env.now tokens
  emit (nep393 (revoke env.predecessor (map (λ t. t.token) tokens)))
  pure (ltb (length tokens) max_revoke_per_call))

unfoldable pub sbt_revoke_by_owner : Env → AccountId → Bool → Call Bool
unfolding assert_issuer burn_owned sbt_tokens_by_owner revoke_owned sbt_token_ids_by_owner
sbt_revoke_by_owner env owner with_burn = do
  issuer_id ← assert_issuer env.predecessor
  if with_burn
      then (do
        tokens ← gets (sbt_token_ids_by_owner owner issuer_id 25)
        if is_empty tokens then pure true else burn_owned env issuer_id owner tokens)
      else (do
        groups ←
            sbt_tokens_by_owner env owner (some env.predecessor) none (some max_revoke_per_call)
              (some false)
        tokens ← expect nothing_to_revoke (last_group groups)
        revoke_owned env issuer_id owner tokens)
