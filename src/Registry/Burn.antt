-- ===== src/Registry/Burn.antt =====
-- Burning by the owner: `sbt_burn` and `_sbt_burn_all` (contracts/registry/src/lib.rs).
pub mod Counts
pub mod Validity
use i_am_human.Base.{
  ℕ, ◌≡◌, Bool, true, false, not, Option, none, some, List, [], ◌∷◌, length, contains, is_some, leb,
  ◌+◌, ◌++◌, if◌then◌else◌, ◌>>=◌, ◌>>◌, pure, gets, modify, require, expect, ◌==◌,
}
use i_am_human.Near.{AccountId, Env}
use i_am_human.Near.Words.{sub_u64, u64_mod}
use i_am_human.Near.Lookup.{insert, remove}
use i_am_human.Near.Keys.{ℕ_key, pair_key}
use i_am_human.Near.Tree
use i_am_human.Sbt.{TokenId, ClassId, OwnedToken, to_v1, burn}
use i_am_human.Registry.{
  Contract, Call, emit, nep393, in_soul_transfer, duplicated_token, token_not_found, not_owner,
  no_supply,
}
use i_am_human.Registry.Keys.{IssuerId, token_id, token_key, balance_key, balance_ord}
use i_am_human.Registry.Admin.{assert_issuer}
use i_am_human.Registry.Query.{sbt_tokens_by_owner}
use i_am_human.Registry.Tables.{drop_token, decrease_class, decrease_owner, decrease_issuer}

-- The loop of `sbt_burn`, with the tokens seen so far.
unfoldable pub burn_each : AccountId → IssuerId → List TokenId → List TokenId → Call (Unit {0})
unfolding decrease_class
burn_each owner issuer_id token_ids [] = pure tt
burn_each owner issuer_id token_ids (tid ∷ tokens) = do
  require duplicated_token (not (contains tid token_ids))
  o ← gets (λ s. s.issuer_tokens (token_id issuer_id tid))
  t ← expect token_not_found o
  require not_owner (t.owner == owner)
  modify (drop_token owner issuer_id (to_v1 t.metadata).class tid)
  decrease_class issuer_id (to_v1 t.metadata).class 1
  burn_each owner issuer_id (tid ∷ token_ids) tokens

unfoldable pub sbt_burn : Env → AccountId → List TokenId → Call (Unit {0})
unfolding assert_issuer burn_each decrease_owner decrease_issuer
sbt_burn env issuer tokens = do
  ongoing ← gets (λ s. is_some (s.ongoing_soul_tx env.predecessor))
  require in_soul_transfer (not ongoing)
  issuer_id ← assert_issuer issuer
  burn_each env.predecessor issuer_id [] tokens
  decrease_owner env.predecessor issuer_id (length tokens)
  decrease_issuer issuer_id (length tokens)
  emit (nep393 (burn issuer tokens))

-- The loop over one issuer's tokens in `_sbt_burn_all`, up to the limit. Returns the tokens burned
-- so far, of this issuer and in all (`u32`).
unfoldable pub burn_group :
    AccountId → IssuerId → ℕ → List OwnedToken → List TokenId → ℕ → Call (List TokenId × ℕ)
unfolding decrease_class
burn_group owner issuer_id limit [] ids burned = pure (ids, burned)
burn_group owner issuer_id limit (t ∷ tokens) ids burned = do
  modify (drop_token owner issuer_id t.metadata.class t.token)
  decrease_class issuer_id t.metadata.class 1
  if leb limit (burned + 1)
      then pure (ids ++ t.token ∷ [], burned + 1)
      else burn_group owner issuer_id limit tokens (ids ++ t.token ∷ []) (burned + 1)

-- The loop over the issuers.
unfoldable pub burn_groups : AccountId → ℕ → List (AccountId × List OwnedToken) → ℕ → Call Bool
unfolding assert_issuer burn_group decrease_owner decrease_issuer
burn_groups owner limit [] burned = pure true
burn_groups owner limit ((issuer, tokens) ∷ groups) burned = do
  issuer_id ← assert_issuer issuer
  r ← burn_group owner issuer_id limit tokens [] burned
  decrease_owner owner issuer_id (length r.0)
  decrease_issuer issuer_id (length r.0)
  emit (nep393 (burn issuer r.0))
  if leb limit r.1 then pure false else burn_groups owner limit groups r.1

-- `_sbt_burn_all`
unfoldable pub burn_all_up_to : Env → ℕ → Call Bool
unfolding sbt_tokens_by_owner burn_groups
burn_all_up_to env limit = do
  ongoing ← gets (λ s. is_some (s.ongoing_soul_tx env.predecessor))
  require in_soul_transfer (not ongoing)
  groups ← sbt_tokens_by_owner env env.predecessor none none (some limit) (some true)
  burn_groups env.predecessor limit groups 0

unfoldable pub sbt_burn_all : Env → Call Bool
unfolding burn_all_up_to
sbt_burn_all env = burn_all_up_to env 25
