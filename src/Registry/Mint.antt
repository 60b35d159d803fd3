-- ===== src/Registry/Mint.antt =====
-- Minting: `_sbt_mint` and the calls that lead to it (contracts/registry/src/lib.rs, registry.rs).
pub mod Pending
pub mod Steps
pub mod Validity
use i_am_human.Base.{
  ℕ, ◌+◌, ◌*◌, ◌%◌, ◌^◌, ◌-◌, ◌<◌, Bool, true, false, not, Option, none, some, List, [], ◌∷◌, ◌++◌,
  length, range, ltb, leb, is_some, unwrap_or, if◌then◌else◌, ◌>>=◌, ◌>>◌, pure, gets, modify,
  require,
}
use i_am_human.Near.{AccountId, Env}
use i_am_human.Near.Words.{add_u64, sub_u64}
use i_am_human.Near.Keys.{ℕ_key, pair_key, ℕ_ord}
use i_am_human.Near.Lookup.{insert}
use i_am_human.Near.Tree
use i_am_human.Near.Tree.{TreeMap}
use i_am_human.Sbt.{TokenId, ClassId, TokenMetadata, v1, mint}
use i_am_human.Registry.{Contract, Call, emit, nep393, class_zero, class_taken, low_deposit}
use i_am_human.Registry.Keys.{IssuerId, token_id, token_key, balance_key, balance_ord}
use i_am_human.Registry.Tally.{tally}
use i_am_human.Registry.Admin.{assert_issuer, assert_not_banned}

-- `token_spec`: owners, each with the metadata of the tokens to mint.
abbrev pub TokenSpec : Type 0
TokenSpec = List (AccountId × List TokenMetadata)

unfoldable pub num_tokens : TokenSpec → ℕ
num_tokens [] = 0
num_tokens ((_, metadatas) ∷ spec) = add_u64 (length metadatas) (num_tokens spec)

-- Takes `num` numbers of the issuer's, and returns the first.
unfoldable pub next_token_id : IssuerId → ℕ → Call TokenId
next_token_id issuer_id num = do
  tid ← gets (λ s. unwrap_or 0 (s.next_token_ids issuer_id))
  modify (λ s. record s { next_token_ids = insert issuer_id (add_u64 tid num) s.next_token_ids })
  pure (add_u64 tid 1)

-- The local tables of `_sbt_mint`: the next token, the supply of each class (a `HashMap`), and each
-- recipient's tokens (a `HashMap` that is sorted before it is logged).
pub record Minting : Type 0 where
  pub token : TokenId
  pub supply_by_class : List (ClassId × ℕ)
  pub per_recipient : TreeMap AccountId (List TokenId)

abbrev pub add_recipient :
    AccountId → TreeMap AccountId (List TokenId) → TreeMap AccountId (List TokenId)
add_recipient owner m = Tree.insert owner (unwrap_or [] (Tree.lookup owner m)) m

abbrev pub push_token :
    AccountId → TokenId → TreeMap AccountId (List TokenId) → TreeMap AccountId (List TokenId)
push_token owner token m = Tree.insert owner (unwrap_or [] (Tree.lookup owner m) ++ token ∷ []) m

-- `issued_at` defaults to now.
abbrev pub issue : Env → TokenMetadata → TokenMetadata
issue env metadata = record metadata { issued_at = some (unwrap_or env.now metadata.issued_at) }

-- The body of the inner loop: one token.
unfoldable pub mint_token : Env → IssuerId → AccountId → TokenMetadata → Minting → Call Minting
mint_token env issuer_id owner metadata a = do
  require class_zero (ltb 0 metadata.class)
  prev ← gets (λ s. Tree.lookup (balance_key owner issuer_id metadata.class) s.balances)
  modify (λ s. record s {
    balances = Tree.insert (balance_key owner issuer_id metadata.class) a.token s.balances;
  })
  require class_taken (not (is_some prev))
  modify (λ s. record s {
    issuer_tokens =
        insert (token_id issuer_id a.token)
          (record { owner = owner; metadata = v1 (issue env metadata) }) s.issuer_tokens;
  })
  pure (record {
    token = add_u64 a.token 1;
    supply_by_class = tally metadata.class a.supply_by_class;
    per_recipient = push_token owner a.token a.per_recipient;
  })

-- The inner loop: one owner's tokens.
unfoldable pub mint_owner : Env → IssuerId → AccountId → List TokenMetadata → Minting → Call Minting
unfolding mint_token
mint_owner env issuer_id owner [] a = pure a
mint_owner env issuer_id owner (metadata ∷ metadatas) a = do
  b ← mint_token env issuer_id owner metadata a
  mint_owner env issuer_id owner metadatas b

unfoldable pub increase_owner : AccountId → IssuerId → ℕ → Call (Unit {0})
increase_owner owner issuer_id n = modify (λ s. record s {
  supply_by_owner =
      insert (owner, issuer_id) (add_u64 (unwrap_or 0 (s.supply_by_owner (owner, issuer_id))) n)
        s.supply_by_owner;
})

-- The outer loop.
unfoldable pub mint_all : Env → IssuerId → TokenSpec → Minting → Call Minting
unfolding mint_owner increase_owner assert_not_banned
mint_all env issuer_id [] a = pure a
mint_all env issuer_id ((owner, metadatas) ∷ spec) a = do
  assert_not_banned owner
  b ←
      mint_owner env issuer_id owner metadatas
        (record a { per_recipient = add_recipient owner a.per_recipient })
  increase_owner owner issuer_id (length metadatas)
  mint_all env issuer_id spec b

-- The loop over the classes.
unfoldable pub increase_classes : IssuerId → List (ClassId × ℕ) → Call (Unit {0})
increase_classes issuer_id [] = pure tt
increase_classes issuer_id ((cls, n) ∷ m) = do
  modify (λ s. record s {
    supply_by_class =
        insert (issuer_id, cls) (add_u64 (unwrap_or 0 (s.supply_by_class (issuer_id, cls))) n)
          s.supply_by_class;
  })
  increase_classes issuer_id m

unfoldable pub increase_issuer : IssuerId → ℕ → Call (Unit {0})
increase_issuer issuer_id n = modify (λ s. record s {
  supply_by_issuer =
      insert issuer_id (add_u64 (unwrap_or 0 (s.supply_by_issuer issuer_id)) n) s.supply_by_issuer;
})

-- `token..token + num`; a range whose end has wrapped around is empty.
abbrev pub token_range : TokenId → ℕ → List TokenId
token_range token num = range token (add_u64 token num - token)

-- The host's account of the bytes that the state takes: `env::storage_usage()`.
module _ (storage_usage : Contract → ℕ) where
  -- The deposit must cover the growth of the storage, as a `u128`.
  unfoldable pub check_deposit : Env → ℕ → Call (Unit {0})
  check_deposit env start = do
    usage ← gets storage_usage
    require low_deposit
        (leb (sub_u64 usage start * env.storage_byte_cost % 2 ^ 128) env.attached_deposit)

  -- `_sbt_mint`
  unfoldable pub mint_spec : Env → AccountId → TokenSpec → Call (List TokenId)
  unfolding num_tokens next_token_id mint_all increase_classes increase_issuer check_deposit
      assert_issuer
  mint_spec env issuer spec = do
    storage_start ← gets storage_usage
    issuer_id ← assert_issuer issuer
    token ← next_token_id issuer_id (num_tokens spec)
    a ←
        mint_all env issuer_id spec
          (record { token = token; supply_by_class = []; per_recipient = [] })
    increase_classes issuer_id a.supply_by_class
    increase_issuer issuer_id (num_tokens spec)
    emit (nep393 (mint issuer a.per_recipient))
    check_deposit env storage_start
    pure (token_range token (num_tokens spec))

  unfoldable pub sbt_mint : Env → TokenSpec → Call (List TokenId)
  unfolding mint_spec
  sbt_mint env spec = mint_spec env env.predecessor spec
