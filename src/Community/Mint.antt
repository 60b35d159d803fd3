-- ===== src/Community/Mint.antt =====
-- `sbt_mint_many` (contracts/community-sbt/src/lib.rs), with the answer of `class_info_minter` for a
-- class as a parameter. A memo is only logged.
use i_am_human.Base.{
  ℕ, ◌+◌, Bool, false, ◌||◌, List, [], ◌∷◌, Option, none, some, length, leb, if◌then◌else◌, Result,
  Tx, ◌>>=◌, ◌>>◌, pure, gets, modify, require, attempt,
}
use i_am_human.Near.{AccountId, Env}
use i_am_human.Near.Words.{add_u64}
use i_am_human.Near.Keys.{ℕ_key}
use i_am_human.Near.Lookup.{LookupMap, empty, insert}
use i_am_human.Sbt.{ClassId, TokenMetadata}
use i_am_human.Cost.{mint_deposit, calculate_mint_gas, calculate_iah_mint_gas}
use i_am_human.Community.{CommunityError, required_deposit, MintCall}

-- The variables of the loops.
pub record Loop : Type 0 where
  pub class_info_map : LookupMap ClassId (Bool × ℕ)
  pub requires_iah : Bool
  pub total_len : ℕ

module _ (class_info : ClassId → Result CommunityError (Bool × ℕ)) where
  -- `match class_info_map.get(&m.class)`
  unfoldable pub class_info_cached : ClassId → Option (Bool × ℕ) → Tx CommunityError Loop (Bool × ℕ)
  class_info_cached class (some ci) = pure ci
  class_info_cached class none = do
    ci ← attempt (class_info class)
    modify (λ l. record l { class_info_map = insert class ci l.class_info_map })
    pure ci

  unfoldable pub stamp_token : ℕ → TokenMetadata → Tx CommunityError Loop TokenMetadata
  unfolding class_info_cached
  stamp_token now_ms m = do
    cached ← gets (λ l. l.class_info_map m.class)
    ci ← class_info_cached m.class cached
    modify (λ l. record l { requires_iah = l.requires_iah || ci.0 })
    pure (record m { expires_at = some (add_u64 now_ms ci.1); issued_at = some now_ms })

  -- `for m in token_metadatas`
  unfoldable pub stamp_tokens : ℕ → List TokenMetadata → Tx CommunityError Loop (List TokenMetadata)
  unfolding stamp_token
  stamp_tokens now_ms [] = pure []
  stamp_tokens now_ms (m ∷ ms) = do
    stamped ← stamp_token now_ms m
    rest ← stamp_tokens now_ms ms
    pure (stamped ∷ rest)

  -- `for (_, token_metadatas) in &mut token_spec`
  unfoldable pub stamp_spec :
      ℕ
      → List (AccountId × List TokenMetadata)
      → Tx CommunityError Loop (List (AccountId × List TokenMetadata))
  unfolding stamp_tokens
  stamp_spec now_ms [] = pure []
  stamp_spec now_ms ((receiver, ms) ∷ spec) = do
    modify (λ l. record l { total_len = l.total_len + length ms })
    stamped ← stamp_tokens now_ms ms
    rest ← stamp_spec now_ms spec
    pure ((receiver, stamped) ∷ rest)

-- The variables before the loops.
abbrev pub first_loop : Loop
first_loop = record { class_info_map = empty; requires_iah = false; total_len = 0 }

-- The promise, with the changed tokens and the variables after the loops.
abbrev pub mint_call : ℕ → List (AccountId × List TokenMetadata) → Loop → MintCall
mint_call attached_deposit token_spec l = record {
  with_iah = l.requires_iah;
  token_spec = token_spec;
  deposit = attached_deposit;
  gas =
      if l.requires_iah
      then calculate_iah_mint_gas l.total_len (length token_spec)
      else calculate_mint_gas l.total_len;
}

-- The loops run on their own variables; the contract `S` does not change.
unfoldable pub mint_many :
    {S : Type 0}
    → (ClassId → Result CommunityError (Bool × ℕ))
    → Env
    → List (AccountId × List TokenMetadata)
    → Tx CommunityError S MintCall
unfolding stamp_spec
mint_many class_info env token_spec = do
  r ← attempt (stamp_spec class_info env.now token_spec first_loop)
  require (required_deposit (mint_deposit r.1.total_len))
      (leb (mint_deposit r.1.total_len) env.attached_deposit)
  pure (mint_call env.attached_deposit r.0 r.1)
