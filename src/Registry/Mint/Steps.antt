-- ===== src/Registry/Mint/Steps.antt =====
-- The invariant of a mint in progress, and the steps of `_sbt_mint` (contracts/registry/src/lib.rs).
use i_am_human.Base.{
  ℕ, ◌+◌, ◌≤◌, ◌<◌, ◌≡◌, refl, ◌&&◌, Option, none, some, [], ◌∷◌, unwrap_or, length, if◌then◌else◌,
  arith, ◌==◌,
}
use i_am_human.Near.{AccountId}
use i_am_human.Near.Words.{u64_mod, add_u64}
use i_am_human.Near.Keys.{ℕ_key, pair_key}
use i_am_human.Near.Lookup
use i_am_human.Near.Tree
use i_am_human.Near.Tree.{count, lookup}
use i_am_human.Near.Tree.Laws.{count-insert}
use i_am_human.Sbt.{TokenId, ClassId, TokenMetadata, v1}
use i_am_human.Registry.{Contract}
use i_am_human.Registry.Keys.{IssuerId, token_id, token_key, balance_key, balance_ord}
use i_am_human.Registry.Invariant.{Linked, Linked-add, Numbered, of_owner, of_class, of_issuer}
use i_am_human.Registry.Tally.{tally, tallied}
use i_am_human.Registry.Mint.{Minting, TokenSpec, push_token}
use i_am_human.Registry.Mint.Pending.{Owed, tallied-tally}

-- During the loops: `limit` is the issuer's counter, `n` tokens of the owner `o` and `m` tokens in
-- all are minted and not yet in the supplies; `n` is absent between two owners.
pub record InProgress (i : IssuerId) (limit : ℕ) (o : AccountId) (n : Option ℕ) (m : ℕ)
    (a : Minting) (s : Contract) : Type 0 where
  pub linked : Linked s.balances s.issuer_tokens
  pub numbered : Numbered s
  pub counter : unwrap_or 0 (s.next_token_ids i) ≡ limit
  pub fresh : (u : TokenId) → a.token ≤ u → s.issuer_tokens (token_id i u) ≡ none
  pub owners :
      (p : AccountId) (j : IssuerId)
      → Owed
          (s.supply_by_owner (p, j))
          (if o == p && i == j then n else none)
          (count (of_owner p j) s.balances)
  pub classes :
      (j : IssuerId) (c : ClassId)
      → Owed
          (s.supply_by_class (j, c))
          (if i == j then tallied c a.supply_by_class else none)
          (count (of_class j c) s.balances)
  pub issuers :
      (j : IssuerId)
      → Owed
          (s.supply_by_issuer j)
          (if i == j then some m else none)
          (count (of_issuer j) s.balances)

-- How many tokens a call is to mint, as a number without bound.
unfoldable pub total_tokens : TokenSpec → ℕ
total_tokens [] = 0
total_tokens ((_, metadatas) ∷ spec) = length metadatas + total_tokens spec

-- The tables after one token.
abbrev pub minted : IssuerId → AccountId → TokenId → TokenMetadata → Contract → Contract
minted i o t md s = record s {
  balances = Tree.insert (balance_key o i md.class) t s.balances;
  issuer_tokens =
      Lookup.insert (token_id i t) (record { owner = o; metadata = v1 md }) s.issuer_tokens;
}

abbrev pub advanced : AccountId → ClassId → Minting → Minting
advanced o c a = record {
  token = add_u64 a.token 1;
  supply_by_class = tally c a.supply_by_class;
  per_recipient = push_token o a.token a.per_recipient;
}

module _ (i : IssuerId) (limit : ℕ) (o : AccountId) (n m : ℕ) (a : Minting) (s : Contract)
    (h : InProgress i limit o (some n) m a s) where
  minted-owners :
      (md : TokenMetadata) (p : AccountId) (j : IssuerId)
      → lookup (balance_key o i md.class) s.balances ≡ none
      → Owed
          (s.supply_by_owner (p, j))
          (if o == p && i == j then some (n + 1) else none)
          (count (of_owner p j) (minted i o a.token md s).balances)
  minted-owners md p j e = ground (
    arith,
    h.owners p j,
    count-insert (of_owner p j) (balance_key o i md.class) a.token s.balances e,
  )

  minted-issuers :
      (md : TokenMetadata) (j : IssuerId)
      → lookup (balance_key o i md.class) s.balances ≡ none
      → Owed
          (s.supply_by_issuer j)
          (if i == j then some (m + 1) else none)
          (count (of_issuer j) (minted i o a.token md s).balances)
  minted-issuers md j e = ground (
    arith,
    h.issuers j,
    count-insert (of_issuer j) (balance_key o i md.class) a.token s.balances e,
  )

  minted-classes :
      (md : TokenMetadata) (j : IssuerId) (c : ClassId)
      → lookup (balance_key o i md.class) s.balances ≡ none
      → Owed
          (s.supply_by_class (j, c))
          (if i == j then tallied c (tally md.class a.supply_by_class) else none)
          (count (of_class j c) (minted i o a.token md s).balances)
  minted-classes md j c e =
      let d = tallied-tally c md.class a.supply_by_class in
      ground (
        arith,
        h.classes j c,
        d.0,
        d.1,
        count-insert (of_class j c) (balance_key o i md.class) a.token s.balances e,
      )

  pub minted-InProgress :
      (md : TokenMetadata)
      → lookup (balance_key o i md.class) s.balances ≡ none
      → a.token ≤ limit
      → limit + 1 < u64_mod
      → InProgress i limit o
          (some (n + 1))
          (m + 1)
          (advanced o md.class a)
          (minted i o a.token md s)
  minted-InProgress md e le bound = record {
    linked =
        Linked-add s.balances s.issuer_tokens h.linked o i md.class a.token _ e
          (h.fresh a.token (omega arith)) refl;
    numbered = λ j u. ground (arith, h.numbered j u, h.counter);
    counter = h.counter;
    fresh = λ u l. ground (arith, h.fresh u (omega arith));
    owners = λ p j. minted-owners md p j e;
    classes = λ j c. minted-classes md j c e;
    issuers = λ j. minted-issuers md j e;
  }
