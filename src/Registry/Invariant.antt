-- ===== src/Registry/Invariant.antt =====
-- What the registry's tables say of one another, and updates of them (contracts/registry/src/lib.rs).
use i_am_human.Base.{
  ℕ, ◌%◌, ◌≤◌, ◌≡◌, ◌↔◌, Bool, true, ◌&&◌, Option, none, some, List, unwrap_or, is_some, arith,
  ◌==◌,
}
use i_am_human.Near.{AccountId}
use i_am_human.Near.Words.{u64_mod}
use i_am_human.Near.Keys.{ℕ_key, pair_key}
use i_am_human.Near.Lookup
use i_am_human.Near.Lookup.{LookupMap}
use i_am_human.Near.Tree
use i_am_human.Near.Tree.{TreeMap, lookup, count, Sorted}
use i_am_human.Near.Tree.Laws.{lookup-insert, lookup-remove, insert-Sorted, remove-Sorted}
use i_am_human.Sbt.{TokenId, ClassId, TokenData, class_id}
use i_am_human.Registry.{Contract, Log}
use i_am_human.Registry.Keys.{
  IssuerId, IssuerTokenId, BalanceKey, token_id, token_key, balance_key, balance_ord,
}

-- Who holds a token, and of which class it is.
abbrev pub holder : Option TokenData → Option (AccountId × ClassId)
holder none = none
holder (some td) = some (td.owner, class_id td.metadata)

-- The balances and the token records describe the same tokens.
pub record Linked (b : TreeMap BalanceKey TokenId) (m : LookupMap IssuerTokenId TokenData)
    : Type 0 where
  pub sorted : Sorted b
  pub link :
      (o : AccountId) (i : IssuerId) (c : ClassId) (t : TokenId)
      → (lookup (balance_key o i c) b ≡ some t) ↔ (holder (m (token_id i t)) ≡ some (o, c))

module _ (b : TreeMap BalanceKey TokenId) (m : LookupMap IssuerTokenId TokenData)
    (l : Linked b m) where
  pub Linked-drop :
      (o : AccountId) (i : IssuerId) (c : ClassId) (t : TokenId)
      → lookup (balance_key o i c) b ≡ some t
      → Linked (Tree.remove (balance_key o i c) b) (Lookup.remove (token_id i t) m)
  Linked-drop o i c t h = record {
    sorted = remove-Sorted (balance_key o i c) b l.sorted;
    link = λ p j d u. ground (
      arith,
      l.link p j d u,
      l.link o i c t,
      l.link o i c u,
      l.link p i d t,
      l.link p i d u,
      lookup-remove (balance_key o i c) (balance_key p j d) b l.sorted,
    );
  }

  pub Linked-add :
      (o : AccountId) (i : IssuerId) (c : ClassId) (t : TokenId) (td : TokenData)
      → lookup (balance_key o i c) b ≡ none
      → m (token_id i t) ≡ none
      → holder (some td) ≡ some (o, c)
      → Linked (Tree.insert (balance_key o i c) t b) (Lookup.insert (token_id i t) td m)
  Linked-add o i c t td h k e = record {
    sorted = insert-Sorted (balance_key o i c) t b l.sorted;
    link = λ p j d u. ground (
      arith,
      l.link p j d u,
      l.link o i c u,
      l.link p i d t,
      lookup-insert (balance_key o i c) (balance_key p j d) t b,
    );
  }

  -- A record may change in what the balances do not show.
  pub Linked-update :
      (i : IssuerId) (t : TokenId) (td : TokenData)
      → holder (some td) ≡ holder (m (token_id i t))
      → Linked b (Lookup.insert (token_id i t) td m)
  Linked-update i t td e = record {
    sorted = l.sorted;
    link = λ p j d u. ground (arith, l.link p j d u);
  }

-- Whose tokens a balance counts among.
abbrev pub of_owner : AccountId → IssuerId → BalanceKey → Bool
of_owner o i k = k.owner == o && k.issuer_id == i

abbrev pub of_class : IssuerId → ClassId → BalanceKey → Bool
of_class i c k = k.issuer_id == i && k.class_id == c

abbrev pub of_issuer : IssuerId → BalanceKey → Bool
of_issuer i k = k.issuer_id == i

-- A stored supply is a count modulo 2 ^ 64; a missing one stands for no tokens at all.
abbrev pub Counts : Option ℕ → ℕ → Type 0
Counts none n = n ≡ 0
Counts (some m) n = m ≡ n % u64_mod

-- The supplies count the balances.
abbrev pub OwnersCounted : Contract → Type 0
OwnersCounted s =
    (o : AccountId) (i : IssuerId)
    → Counts (s.supply_by_owner (o, i)) (count (of_owner o i) s.balances)

abbrev pub ClassesCounted : Contract → Type 0
ClassesCounted s =
    (i : IssuerId) (c : ClassId)
    → Counts (s.supply_by_class (i, c)) (count (of_class i c) s.balances)

abbrev pub IssuersCounted : Contract → Type 0
IssuersCounted s = (i : IssuerId) → Counts (s.supply_by_issuer i) (count (of_issuer i) s.balances)

-- No token has a number beyond its issuer's counter.
abbrev pub Numbered : Contract → Type 0
Numbered s =
    (i : IssuerId) (t : TokenId)
    → is_some (s.issuer_tokens (token_id i t)) ≡ true
    → t ≤ unwrap_or 0 (s.next_token_ids i)

-- The invariant of the token tables.
pub record IsValid (s : Contract) : Type 0 where
  pub linked : Linked s.balances s.issuer_tokens
  pub owners : OwnersCounted s
  pub classes : ClassesCounted s
  pub issuers : IssuersCounted s
  pub numbered : Numbered s

-- A log changes no table.
pub log-IsValid : (s : Contract) (l : List Log) → IsValid s → IsValid (record s { logs = l })
log-IsValid s l v = record {
  linked = v.linked;
  owners = v.owners;
  classes = v.classes;
  issuers = v.issuers;
  numbered = v.numbered;
}
