-- ===== src/Registry/Query.antt =====
-- The registry's queries (contracts/registry/src/registry.rs).
pub mod Supplies
use i_am_human.Base.{
  ℕ, ◌-◌, Bool, false, not, ◌&&◌, ◌||◌, Option, none, some, List, [], ◌∷◌, ◌++◌, map, ltb, is_some,
  is_empty, unwrap_or, min, range, if◌then◌else◌, ◌>>=◌, ◌>>◌, pure, gets, require, ◌==◌,
}
use i_am_human.Near.{AccountId, Env}
use i_am_human.Near.Words.{add_u64}
use i_am_human.Near.Keys.{ℕ_key, pair_key}
use i_am_human.Near.Tree
use i_am_human.Sbt.{
  TokenId, ClassId, TokenData, Token, OwnedToken, to_token, to_v1, class_id, expires_at,
}
use i_am_human.Registry.{Contract, Call, issuer_needed, limit_zero, from_token_zero}
use i_am_human.Registry.Keys.{IssuerId, BalanceKey, token_id, balance_key, balance_ord}
use i_am_human.Registry.Admin.{assert_issuer, issuer_by_id}
use i_am_human.Registry.Tables.{get_token}

abbrev pub max_limit : ℕ
max_limit = 1000

abbrev pub view_token : TokenId → Option TokenData → Option Token
view_token token none = none
view_token token (some td) = some (to_token td token)

unfoldable pub sbt : AccountId → TokenId → Call (Option Token)
unfolding assert_issuer
sbt issuer token = do
  issuer_id ← assert_issuer issuer
  gets (λ s. view_token token (s.issuer_tokens (token_id issuer_id token)))

unfoldable pub sbts : AccountId → List TokenId → Call (List (Option Token))
unfolding assert_issuer
sbts issuer tokens = do
  issuer_id ← assert_issuer issuer
  gets (λ s. map (λ t. view_token t (s.issuer_tokens (token_id issuer_id t))) tokens)

abbrev pub view_class : Option TokenData → Option ClassId
view_class none = none
view_class (some td) = some (class_id td.metadata)

unfoldable pub sbt_classes : AccountId → List TokenId → Call (List (Option ClassId))
unfolding assert_issuer
sbt_classes issuer tokens = do
  issuer_id ← assert_issuer issuer
  gets (λ s. map (λ t. view_class (s.issuer_tokens (token_id issuer_id t))) tokens)

abbrev pub supply_of : Option IssuerId → (IssuerId → Option ℕ) → ℕ
supply_of none supply = 0
supply_of (some id) supply = unwrap_or 0 (supply id)

unfoldable pub sbt_supply : AccountId → Contract → ℕ
sbt_supply issuer s = supply_of (s.sbt_issuers issuer) s.supply_by_issuer

unfoldable pub sbt_supply_by_class : AccountId → ClassId → Contract → ℕ
sbt_supply_by_class issuer class s =
    supply_of (s.sbt_issuers issuer) (λ id. s.supply_by_class (id, class))

abbrev pub owner_supply : AccountId → Option ClassId → IssuerId → Contract → ℕ
owner_supply account none id s = unwrap_or 0 (s.supply_by_owner (account, id))
owner_supply account (some class) id s =
    if is_some (Tree.lookup (balance_key account id class) s.balances) then 1 else 0

unfoldable pub sbt_supply_by_owner : AccountId → AccountId → Option ClassId → Contract → ℕ
sbt_supply_by_owner account issuer class s =
    if is_some (s.ongoing_soul_tx account)
    then 0
    else supply_of (s.sbt_issuers issuer) (λ id. some (owner_supply account class id s))

-- A token past its expiry; one without an expiry never is.
abbrev pub is_expired : Env → TokenData → Bool
is_expired env td = ltb (unwrap_or env.now (expires_at td.metadata)) env.now

-- The loop of `sbt_tokens`, over the token numbers.
unfoldable pub collect_tokens : Env → IssuerId → Bool → List TokenId → Contract → List Token
collect_tokens env issuer_id non_expired [] s = []
collect_tokens env issuer_id non_expired (token ∷ tokens) s =
    let rest = collect_tokens env issuer_id non_expired tokens s in
    elim (s.issuer_tokens (token_id issuer_id token)) [
      | none ↦ rest
      | some t ↦ if non_expired && is_expired env t then rest else to_token t token ∷ rest
    ]

-- `sbt_tokens`, once the issuer is known.
unfoldable pub issuer_sbts : Env → IssuerId → Option ℕ → Option ℕ → Option Bool → Call (List Token)
unfolding collect_tokens
issuer_sbts env issuer_id from_token limit with_expired = do
  let from = unwrap_or 1 from_token
  let lim = unwrap_or max_limit limit
  require from_token_zero (ltb 0 from)
  require limit_zero (ltb 0 lim)
  max_id ← gets (λ s. unwrap_or 0 (s.next_token_ids issuer_id))
  if ltb max_id from
      then pure []
      else gets (
          collect_tokens env issuer_id (not (unwrap_or false with_expired))
            (range from (min (add_u64 max_id 1) (add_u64 from lim) - from)))

unfoldable pub sbt_tokens : Env → AccountId → Option ℕ → Option ℕ → Option Bool → Call (List Token)
unfolding issuer_sbts
sbt_tokens env issuer from_token limit with_expired = do
  id ← gets (λ s. s.sbt_issuers issuer)
  elim id [ none ↦ pure [] | some i ↦ issuer_sbts env i from_token limit with_expired ]

-- The variables of the loop of `sbt_tokens_by_owner`.
pub record Listing : Type 0 where
  pub resp : List (AccountId × List OwnedToken)
  pub tokens : List OwnedToken
  pub prev_issuer : IssuerId

-- `resp.push((issuer, tokens))`, when there are any.
unfoldable pub flush : Listing → Call Listing
unfolding issuer_by_id
flush a = if is_empty a.tokens then pure a else (do
  issuer ← issuer_by_id a.prev_issuer
  pure (record a { resp = a.resp ++ (issuer, a.tokens) ∷ []; tokens = [] }))

unfoldable pub switch_issuer : IssuerId → Listing → Call Listing
unfolding flush
switch_issuer issuer_id a =
    if a.prev_issuer == issuer_id
    then pure a
    else (do b ← flush a; pure (record b { prev_issuer = issuer_id }))

abbrev pub push_owned : TokenId → TokenData → Listing → Listing
push_owned token_id t a = record a {
  tokens = a.tokens ++ record { token = token_id; metadata = to_v1 t.metadata } ∷ [];
}

-- The loop, up to its breaks. `limit` is positive.
unfoldable pub list_tokens :
    Env → AccountId → IssuerId → Bool → List (BalanceKey × TokenId) → ℕ → Listing → Call Listing
unfolding switch_issuer get_token
list_tokens env account issuer_id with_expired [] limit a = pure a
list_tokens env account issuer_id with_expired ((key, token) ∷ rest) limit a =
    if not (key.owner == account)
    then pure a
    else if not (a.prev_issuer == key.issuer_id) && not (issuer_id == 0)
    then pure a
    else (do
      b ← switch_issuer key.issuer_id a
      t ← get_token key.issuer_id token
      let skip = not with_expired && is_expired env t
      let c = if skip then b else push_owned token t b
      let left = if skip then limit else limit - 1
      if left == 0 then pure c else list_tokens env account issuer_id with_expired rest left c)

unfoldable pub issuer_or_zero : Option AccountId → Call IssuerId
unfolding assert_issuer
issuer_or_zero none = pure 0
issuer_or_zero (some addr) = assert_issuer addr

-- `sbt_tokens_by_owner` past its early return.
unfoldable pub owner_sbts :
    Env
    → AccountId
    → Option AccountId
    → Option ℕ
    → Option ℕ
    → Option Bool
    → Call (List (AccountId × List OwnedToken))
unfolding issuer_or_zero list_tokens flush
owner_sbts env account issuer from_class limit with_expired = do
  issuer_id ← issuer_or_zero issuer
  let first_key = balance_key account issuer_id (unwrap_or 0 from_class - 1)
  require limit_zero (ltb 0 (unwrap_or max_limit limit))
  entries ← gets (λ s. Tree.iter_from first_key s.balances)
  a ←
      list_tokens env account issuer_id (unwrap_or false with_expired) entries
        (unwrap_or max_limit limit) (record { resp = []; tokens = []; prev_issuer = issuer_id })
  b ← (if a.prev_issuer == 0 then pure a else flush a)
  pure b.resp

unfoldable pub sbt_tokens_by_owner :
    Env
    → AccountId
    → Option AccountId
    → Option ℕ
    → Option ℕ
    → Option Bool
    → Call (List (AccountId × List OwnedToken))
unfolding owner_sbts
sbt_tokens_by_owner env account issuer from_class limit with_expired = do
  require issuer_needed (not (is_some from_class) || is_some issuer)
  ongoing ← gets (λ s. is_some (s.ongoing_soul_tx account))
  if ongoing then pure [] else owner_sbts env account issuer from_class limit with_expired
