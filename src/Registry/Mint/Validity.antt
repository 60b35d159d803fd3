-- ===== src/Registry/Mint/Validity.antt =====
-- The invariant and `_sbt_mint` (contracts/registry/src/lib.rs).
use i_am_human.Base.{
  ℕ, ◌+◌, ◌≤◌, ◌<◌, ◌≡◌, refl, none, some, List, [], ◌∷◌, unwrap_or, length, arith, Ensures,
  Ensures-bind, Ensures-mono, Ensures-require, Ensures-gets, Ensures-modify, Ensures-pure,
  Ensures-last, Ensures-assoc, Ensures-pure_bind,
}
use i_am_human.Near.{AccountId, Env}
use i_am_human.Near.Words.{u64_mod, add_u64}
use i_am_human.Near.Keys.{ℕ_key, pair_key}
use i_am_human.Near.Lookup.{insert}
use i_am_human.Sbt.{ClassId, TokenMetadata}
use i_am_human.Registry.{Contract}
use i_am_human.Registry.Keys.{IssuerId, balance_ord}
use i_am_human.Registry.Rules.{Ensures-assert_issuer, Ensures-assert_not_banned}
use i_am_human.Registry.Invariant.{IsValid, log-IsValid}
use i_am_human.Registry.Mint.{
  Minting, TokenSpec, num_tokens, mint_token, mint_owner, increase_owner, mint_all,
  increase_classes, increase_issuer, check_deposit, mint_spec, issue, next_token_id, add_recipient,
}
use i_am_human.Registry.Tally.{tallied}
use i_am_human.Registry.Mint.Steps.{InProgress, minted-InProgress, total_tokens}

module _ (env : Env) (i : IssuerId) (limit : ℕ) (bound : limit + 1 < u64_mod) where
  mint_token-InProgress :
      (o : AccountId) (n m : ℕ) (md : TokenMetadata) (a : Minting) (s : Contract)
      → InProgress i limit o (some n) m a s
      → a.token ≤ limit
      → Ensures
          (λ b t. InProgress i limit o (some (n + 1)) (m + 1) b t × (b.token ≡ a.token + 1))
          (mint_token env i o md a s)
  unfolding mint_token
  mint_token-InProgress o n m md a s h le = Ensures-require _ _ _ _ _ λ _. Ensures-gets _ _ _ _ (
      Ensures-modify _ _ _ _ (
        Ensures-require _ _ _ _ _ λ new. Ensures-modify _ _ _ _ (
          Ensures-pure _ _ _ _ (
            minted-InProgress i limit o n m a s h (issue env md) (ground arith) le bound,
            omega arith,
          ))))

  mint_owner-InProgress :
      (o : AccountId) (n n' m m' : ℕ) (mds : List TokenMetadata) (a : Minting) (s : Contract)
      → InProgress i limit o (some n) m a s
      → a.token + length mds ≤ limit + 1
      → n' ≡ n + length mds
      → m' ≡ m + length mds
      → Ensures
          (λ b t. InProgress i limit o (some n') m' b t × (b.token ≡ a.token + length mds))
          (mint_owner env i o mds a s)
  unfolding mint_owner
  mint_owner-InProgress o n n' m m' [] a s h le e f =
      let e' : n' ≡ n = omega arith in
      let f' : m' ≡ m = omega arith in Ensures-pure _ _ _ _ (rw (e', f') (h, omega arith))
  mint_owner-InProgress o n n' m m' (md ∷ mds) a s h le e f =
      Ensures-bind _ _ _ _ _ (mint_token-InProgress o n m md a s h (omega arith)) λ b t g.
        Ensures-mono _ _ _ (λ c u r. (r.0, omega (arith, r.1, g.1)))
          (mint_owner-InProgress o (n + 1) n' (m + 1) m' mds b t g.0 (omega (arith, g.1))
            (omega arith) (omega arith))

  -- Storing the owner's supply ends his turn.
  stored-InProgress :
      (o o' : AccountId) (n m : ℕ) (a : Minting) (s : Contract)
      → InProgress i limit o (some n) m a s
      → Ensures (λ _ t. InProgress i limit o' none m a t) (increase_owner o i n s)
  unfolding increase_owner
  stored-InProgress o o' n m a s h = Ensures-last _ _ _ _ (record {
    linked = h.linked;
    numbered = h.numbered;
    counter = h.counter;
    fresh = h.fresh;
    owners = λ p j. ground (arith, h.owners p j);
    classes = h.classes;
    issuers = h.issuers;
  })

  -- And at its start nothing is pending.
  opened-InProgress :
      (o o' : AccountId) (m : ℕ) (a : Minting) (s : Contract)
      → InProgress i limit o' none m a s
      → InProgress i limit o
          (some 0)
          m
          (record a { per_recipient = add_recipient o a.per_recipient })
          s
  opened-InProgress o o' m a s h = record {
    linked = h.linked;
    numbered = h.numbered;
    counter = h.counter;
    fresh = h.fresh;
    owners = λ p j. ground (arith, h.owners p j);
    classes = h.classes;
    issuers = h.issuers;
  }

  mint_all-InProgress :
      (o : AccountId) (m m' : ℕ) (spec : TokenSpec) (a : Minting) (s : Contract)
      → InProgress i limit o none m a s
      → a.token + total_tokens spec ≤ limit + 1
      → m' ≡ m + total_tokens spec
      → Ensures
          (λ b t. InProgress i limit o none m' b t × (b.token ≡ a.token + total_tokens spec))
          (mint_all env i spec a s)
  unfolding mint_all total_tokens
  mint_all-InProgress o m m' [] a s h le f =
      let f' : m' ≡ m = omega arith in Ensures-pure _ _ _ _ (rw f' (h, omega arith))
  mint_all-InProgress o m m' ((p, mds) ∷ spec) a s h le f = Ensures-assert_not_banned _ _ _ _ λ _.
      Ensures-bind _ _ _ _ _
        (mint_owner-InProgress p 0 (length mds) m (m + length mds) mds _ s
          (opened-InProgress p o m a s h) (omega arith) (omega arith) (omega arith))
        λ b t g.
          Ensures-bind _ _ _ _ _ (stored-InProgress p o (length mds) (m + length mds) b t g.0)
            λ _ u k.
              Ensures-mono _ _ _ (λ c v r. (r.0, omega (arith, r.1, g.1)))
                (mint_all-InProgress o (m + length mds) m' spec b u k (omega (arith, g.1))
                  (omega arith))

  -- Storing the class supplies, one by one.
  increase_classes-InProgress :
      (o : AccountId) (m : ℕ) (cs : List (ClassId × ℕ)) (a : Minting) (s : Contract)
      → InProgress i limit o none m (record a { supply_by_class = cs }) s
      → Ensures
          (λ _ t. InProgress i limit o none m (record a { supply_by_class = [] }) t)
          (increase_classes i cs s)
  unfolding increase_classes tallied
  increase_classes-InProgress o m [] a s h = Ensures-pure _ _ _ _ h
  increase_classes-InProgress o m ((d, n) ∷ cs) a s h = Ensures-modify _ _ _ _ (
      increase_classes-InProgress o m cs a _ (record {
        linked = h.linked;
        numbered = h.numbered;
        counter = h.counter;
        fresh = h.fresh;
        owners = h.owners;
        classes = λ j c. ground (arith, h.classes j c);
        issuers = h.issuers;
      }))

  -- Storing the issuer's supply ends the mint.
  increase_issuer-IsValid :
      (o : AccountId) (m : ℕ) (a : Minting) (s : Contract)
      → InProgress i limit o none m (record a { supply_by_class = [] }) s
      → Ensures (λ _ t. IsValid t) (increase_issuer i m s)
  unfolding increase_issuer tallied
  increase_issuer-IsValid o m a s h = Ensures-last _ _ _ _ (record {
    linked = h.linked;
    owners = λ p j. ground (arith, h.owners p j);
    classes = λ j c. ground (arith, h.classes j c);
    issuers = λ j. ground (arith, h.issuers j);
    numbered = h.numbered;
  })

pub num_tokens-eq-total :
    (spec : TokenSpec) → total_tokens spec < u64_mod → num_tokens spec ≡ total_tokens spec
unfolding num_tokens total_tokens
num_tokens-eq-total [] h = refl
num_tokens-eq-total ((_, mds) ∷ spec) h = omega (arith, num_tokens-eq-total spec (omega arith))

-- A mint begins with all of its numbers taken and nothing pending.
begun-InProgress :
    (i : IssuerId) (tid total : ℕ) (a : Minting) (s : Contract)
    → IsValid s
    → unwrap_or 0 (s.next_token_ids i) ≡ tid
    → tid + total + 1 < u64_mod
    → a.token ≡ add_u64 tid 1
    → a.supply_by_class ≡ []
    → InProgress i
        (tid + total)
        0
        none
        0
        a
        (record s { next_token_ids = insert i (add_u64 tid total) s.next_token_ids })
unfolding tallied
begun-InProgress i tid total a s v e bound first clear = record {
  linked = v.linked;
  numbered = λ j u. ground (arith, v.numbered j u);
  counter = ground arith;
  fresh = λ u l. ground (arith, v.numbered i u);
  owners = λ p j. ground (arith, v.owners p j);
  classes = λ j c. rw clear (ground (arith, v.classes j c));
  issuers = λ j. ground (arith, v.issuers j);
}

-- In a valid registry, with room for the new numbers in `u64`, a successful mint leaves a valid
-- registry.
pub mint_spec-IsValid :
    (usage : Contract → ℕ) (env : Env) (issuer : AccountId) (spec : TokenSpec) (s : Contract)
    → IsValid s
    → ((i : IssuerId) → unwrap_or 0 (s.next_token_ids i) + total_tokens spec + 1 < u64_mod)
    → Ensures (λ _ t. IsValid t) (mint_spec usage env issuer spec s)
unfolding mint_spec next_token_id check_deposit
mint_spec-IsValid usage env issuer spec s v room = Ensures-gets _ _ _ _ (
    Ensures-assert_issuer _ _ _ _ λ i _.
      let tid = unwrap_or 0 (s.next_token_ids i) in
      let total = total_tokens spec in
      let n : num_tokens spec ≡ total = num_tokens-eq-total spec (omega (arith, room i)) in
      Ensures-assoc _ _ _ _ _ (
        Ensures-gets _ _ _ _ (
          Ensures-assoc _ _ _ _ _ (
            Ensures-modify _ _ _ _ (
              Ensures-pure_bind _ _ _ _ (
                Ensures-bind _ _ _ _ _
                  (mint_all-InProgress env i (tid + total) (room i) 0 0 total spec _ _
                    (rw n (begun-InProgress i tid total _ s v refl (room i) refl refl))
                    (omega (arith, room i)) (omega arith))
                  λ a t g.
                    Ensures-bind _ _ _ _ _
                      (increase_classes-InProgress env i (tid + total) (room i) 0 total
                        a.supply_by_class a t g.0)
                      λ _ u k.
                        Ensures-bind _ _ _ _ _
                          (rw n
                            (increase_issuer-IsValid env i (tid + total) (room i) 0 total a u k))
                          λ _ w x. Ensures-modify _ _ _ _ (
                            Ensures-assoc _ _ _ _ _ (
                              Ensures-gets _ _ _ _ (
                                Ensures-require _ _ _ _ _
                                  λ _. Ensures-pure _ _ _ _ (log-IsValid w _ x))))))))))
