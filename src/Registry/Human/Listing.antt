-- ===== src/Registry/Human/Listing.antt =====
-- The listing of one account's tokens of one issuer, as `_is_human` asks for it
-- (`sbt_tokens_by_owner`, contracts/registry/src/registry.rs).
use i_am_human.Base.{
  ℕ, ◌-◌, ◌≡◌, ◌≢◌, ◌⊎◌, refl, sym, false, Option, none, some, is_some, is_empty, List, [], ◌∷◌,
  ◌++◌, arith, ◌==◌, ==_iff, Bool-cases, inl, inr, if◌then◌else◌, pure, Ensures, Ensures-bind,
  Ensures-gets, Ensures-require, Ensures-pure, Ensures-pure_bind,
}
use i_am_human.Near.{AccountId, Env}
use i_am_human.Near.Keys.{ℕ_key, pair_key}
use i_am_human.Near.Tree.{Sorted, lookup, iter_from}
use i_am_human.Near.Tree.Laws.{lookup-Above}
use i_am_human.Sbt.{TokenId, TokenData, OwnedToken, to_v1}
use i_am_human.Registry.{Contract}
use i_am_human.Registry.Keys.{
  IssuerId, BalanceKey, token_id, token_key, balance_ord, balance_lt, balance_eq_iff,
}
use i_am_human.Registry.Invariant.{IsValid}
use i_am_human.Registry.Rules.{Ensures-issuer_by_id, Ensures-assert_issuer}
use i_am_human.Registry.Tables.Rules.{Ensures-get_token}
use i_am_human.Registry.Query.{
  Listing, flush, switch_issuer, push_owned, list_tokens, is_expired, owner_sbts, issuer_or_zero,
  sbt_tokens_by_owner,
}
use i_am_human.Registry.Transfer.Batch.{Entries}

-- All the entries are entries of the map.
abbrev pub Listed : Entries → Entries → Type 0
Listed b [] = Unit
Listed b ((k, t) ∷ m) = (lookup k b ≡ some t) × Listed b m

iter_from-Listed :
    (k : BalanceKey) (b m : Entries)
    → Sorted m
    → ((j : BalanceKey) (t : TokenId) → lookup j m ≡ some t → lookup j b ≡ some t)
    → Listed b (iter_from k m)
unfolding iter_from lookup
iter_from-Listed k b [] so h = tt
iter_from-Listed k b ((i, w) ∷ m) so h = elim (Bool-cases (balance_lt k i)) [
  | inl lt ↦ rw lt (h i w (ground arith), iter_from-Listed k b m so.1 rest)
  | inr ge ↦ rw ge (iter_from-Listed k b m so.1 rest)
]
  where
    rest : (j : BalanceKey) (t : TokenId) → lookup j m ≡ some t → lookup j b ≡ some t
    rest j t e = h j t (ground (arith, e, lookup-Above i m so.0, balance_eq_iff j i))

-- The registry has the token for the account, and it is not expired.
pub record Holds (env : Env) (o : AccountId) (i : IssuerId) (s : Contract) (t : OwnedToken)
    : Type 0 where
  pub data_of : TokenData
  pub found : s.issuer_tokens (token_id i t.token) ≡ some data_of
  pub owned : data_of.owner ≡ o
  pub shown : t.metadata ≡ to_v1 data_of.metadata
  pub current : is_expired env data_of ≡ false

abbrev pub AllHold : Env → AccountId → IssuerId → Contract → List OwnedToken → Type 0
AllHold env o i s [] = Unit
AllHold env o i s (t ∷ ts) = Holds env o i s t × AllHold env o i s ts

AllHold-add :
    (env : Env) (o : AccountId) (i : IssuerId) (s : Contract) (ts : List OwnedToken)
    (t : OwnedToken)
    → AllHold env o i s ts
    → Holds env o i s t
    → AllHold env o i s (ts ++ t ∷ [])
AllHold-add env o i s [] t h k = (k, tt)
AllHold-add env o i s (x ∷ ts) t h k = (h.0, AllHold-add env o i s ts t h.1 k)

-- A listing of one issuer: nothing is flushed yet, and the tokens are held.
pub record One (env : Env) (o : AccountId) (i : IssuerId) (s : Contract) (a : Listing)
    : Type 0 where
  pub resp : a.resp ≡ []
  pub issuer : a.prev_issuer ≡ i
  pub tokens : AllHold env o i s a.tokens

-- An entry of the account that is not expired is held.
entry-Holds :
    (env : Env) (o : AccountId) (i : IssuerId) (k : BalanceKey) (x : TokenId) (td : TokenData)
    (s : Contract)
    → IsValid s
    → lookup k s.balances ≡ some x
    → k.owner ≡ o
    → k.issuer_id ≡ i
    → s.issuer_tokens (token_id k.issuer_id x) ≡ some td
    → is_expired env td ≡ false
    → Holds env o i s (record { token = x; metadata = to_v1 td.metadata })
entry-Holds env o i k x td s v h own same e current = record {
  data_of = td;
  found = ground (arith, e, same);
  owned = ground (arith, v.linked.link k.owner k.issuer_id k.class_id x, h, e, own);
  shown = refl;
  current = current;
}

-- The listing stops at its limit or goes on.
next-One :
    (env : Env) (o : AccountId) (i : IssuerId) (entries : Entries) (left : ℕ) (b : Listing)
    (s : Contract)
    → One env o i s b
    → (One env o i s b
        → Ensures (λ c t. One env o i s c × (t ≡ s)) (list_tokens env o i false entries left b s))
    → Ensures
        (λ c t. One env o i s c × (t ≡ s))
        ((if left == 0 then pure b else list_tokens env o i false entries left b) s)
next-One env o i entries left b s g go = elim (Bool-cases (left == 0)) [
  | inl z ↦ rw z (Ensures-pure _ _ _ _ (g, refl))
  | inr z ↦ rw z (go g)
]

pub list_tokens-One :
    (env : Env) (o : AccountId) (i : IssuerId) (entries : Entries) (limit : ℕ) (a : Listing)
    (s : Contract)
    → i ≢ 0
    → IsValid s
    → Listed s.balances entries
    → One env o i s a
    → Ensures (λ b t. One env o i s b × (t ≡ s)) (list_tokens env o i false entries limit a s)
unfolding list_tokens switch_issuer
list_tokens-One env o i [] limit a s ne v l h = Ensures-pure _ _ _ _ (h, refl)
list_tokens-One env o i ((k, x) ∷ entries) limit a s ne v l h = elim (Bool-cases (k.owner == o)) [
  | inr other ↦ rw other (Ensures-pure _ _ _ _ (h, refl))
  | inl own ↦ elim (Bool-cases (i == k.issuer_id)) [
    | inr other ↦
        let nz : (i == 0) ≡ false = ground arith in
        rw (own, h.issuer, other, nz)
          (Ensures-pure _ _ _ _ (record { resp = h.resp; issuer = refl; tokens = h.tokens }, refl))
    | inl same ↦
        rw (own, h.issuer, same)
          (Ensures-pure_bind _ _ _ _ (
            Ensures-get_token _ _ _ _ _ λ td e. elim (Bool-cases (is_expired env td)) [
              | inl past ↦ rw past (
                  next-One env o i entries limit (record a { prev_issuer = i }) s
                    (record { resp = h.resp; issuer = refl; tokens = h.tokens })
                    (list_tokens-One env o i entries limit _ s ne v l.1))
              | inr current ↦ rw current (
                  next-One env o i entries (limit - 1)
                    (push_owned x td (record a { prev_issuer = i })) s
                    (record {
                      resp = h.resp;
                      issuer = refl;
                      tokens = AllHold-add env o i s a.tokens _ h.tokens (
                          entry-Holds env o i k x td s v l.0 ((==_iff k.owner o).0 own)
                            (sym ((==_iff i k.issuer_id).0 same)) e current);
                    })
                    (list_tokens-One env o i entries (limit - 1) _ s ne v l.1))
            ]))
  ]
]

-- The groups of a listing hold.
abbrev pub GroupsHold :
    Env → AccountId → IssuerId → Contract → List (AccountId × List OwnedToken) → Type 0
GroupsHold env o i s [] = Unit
GroupsHold env o i s ((_, ts) ∷ groups) = AllHold env o i s ts × GroupsHold env o i s groups

flush-Hold :
    (env : Env) (o : AccountId) (i : IssuerId) (a : Listing) (s : Contract)
    → One env o i s a
    → Ensures (λ b t. GroupsHold env o i s b.resp × (t ≡ s)) (flush a s)
unfolding flush
flush-Hold env o i a s h = elim (Bool-cases (is_empty a.tokens)) [
  | inl e ↦ rw e (Ensures-pure _ _ _ _ (rw h.resp tt, refl))
  | inr e ↦
      rw e (
        Ensures-issuer_by_id _ _ _ _ λ iss _. Ensures-pure _ _ _ _ (rw h.resp (h.tokens, tt), refl))
]

-- A listing of one issuer's tokens that are not expired shows tokens that the account holds.
pub sbt_tokens_by_owner-Hold :
    (env : Env) (o iss : AccountId) (cls limit : Option ℕ) (s : Contract)
    → ((i : IssuerId) → s.sbt_issuers iss ≡ some i → i ≢ 0)
    → IsValid s
    → Ensures
        (λ groups t.
          ((groups ≡ [])
            ⊎ ((i : IssuerId) × (s.sbt_issuers iss ≡ some i) × GroupsHold env o i s groups))
          × (t ≡ s))
        (sbt_tokens_by_owner env o (some iss) cls limit none s)
unfolding sbt_tokens_by_owner owner_sbts issuer_or_zero
sbt_tokens_by_owner-Hold env o iss cls limit s ne v = Ensures-require _ _ _ _ _ λ _.
    Ensures-gets _ _ _ _ (elim (Bool-cases (is_some (s.ongoing_soul_tx o))) [
      | inl busy ↦ rw busy (Ensures-pure _ _ _ _ (inl refl, refl))
      | inr free ↦ rw free (
          Ensures-assert_issuer _ _ _ _ λ i e. Ensures-require _ _ _ _ _ λ _. Ensures-gets _ _ _ _ (
            Ensures-bind _ _ _ _ _
              (list_tokens-One env o i _ _ _ s (ne i e) v
                (iter_from-Listed _ s.balances s.balances v.linked.sorted λ j t h. h)
                (record { resp = refl; issuer = refl; tokens = tt }))
              λ a t g.
                Ensures-bind _ (λ b u. GroupsHold env o i s b.resp × (u ≡ s)) _ _ _
                  (let nz : (a.prev_issuer == 0) ≡ false = ground (arith, g.0.issuer, ne i e) in
                    rw (nz, g.1) (flush-Hold env o i a s g.0))
                  λ b u k. Ensures-pure _ _ _ _ (inr (i, e, k.0), k.1)))
    ])
