-- ===== src/Registry/Transfer/Steps.antt =====
-- The steps of a soul transfer: supplies and single tokens (contracts/registry/src/lib.rs).
use i_am_human.Base.{
  ℕ, ◌≡◌, ◌≢◌, refl, subst, inl, inr, ◌&&◌, Option, none, some, unwrap_or, if◌then◌else◌, arith,
  ◌==◌, Option-cases, Bool-cases, Ensures, Ensures-require, Ensures-gets, Ensures-expect,
  Ensures-modify, Ensures-last,
}
use i_am_human.Near.{AccountId}
use i_am_human.Near.Keys.{ℕ_key, pair_key}
use i_am_human.Near.Words.{add_u64}
use i_am_human.Near.Lookup
use i_am_human.Near.Tree.{lookup}
use i_am_human.Sbt.{TokenId, ClassId}
use i_am_human.Registry.{Contract}
use i_am_human.Registry.Keys.{IssuerId, BalanceKey, balance_key, balance_ord}
use i_am_human.Registry.Transfer.{move_supply, move_token}
use i_am_human.Registry.Transfer.Halfway.{Halfway, Split, moved-Halfway, lookup-moved}

-- A supply that is moved as a whole.
pub record SupplyMoved (o r : AccountId) (i : IssuerId) (s t : Contract) : Type 0 where
  pub halfway : Halfway o r t
  pub gone : t.supply_by_owner (o, i) ≡ none
  pub balances : t.balances ≡ s.balances

abbrev with_supply : (AccountId × IssuerId → Option ℕ) → Contract → Contract
with_supply m s = record s { supply_by_owner = m }

-- Enough for `Halfway` after a change of the owners' supplies.
with_supply-Halfway :
    (o r : AccountId) (m : AccountId × IssuerId → Option ℕ) (s : Contract)
    → Halfway o r s
    → ((p : AccountId) (j : IssuerId) → p ≢ o → p ≢ r → m (p, j) ≡ s.supply_by_owner (p, j))
    → ((j : IssuerId) → Split o r j (with_supply m s))
    → Halfway o r (with_supply m s)
with_supply-Halfway o r m s h same split = record {
  linked = h.linked;
  classes = h.classes;
  issuers = h.issuers;
  numbered = h.numbered;
  others = λ p j a b. rw (same p j a b) (h.others p j a b);
  split = split;
}

module _ (o r : AccountId) (i : IssuerId) where
  forgotten-Split :
      (s : Contract)
      → o ≢ r
      → Halfway o r s
      → s.supply_by_owner (o, i) ≡ none
      → (j : IssuerId) → Split o r j (with_supply (Lookup.remove (o, i) s.supply_by_owner) s)
  forgotten-Split s ne h e j = elim (h.split j) [
    | inl q ↦ inl (ground (arith, q.0), ground (arith, q.1))
    | inr q ↦ inr (ground (arith, q.0), ground (arith, q.1))
  ]

  merged-Split :
      (n : ℕ) (s : Contract)
      → o ≢ r
      → Halfway o r s
      → s.supply_by_owner (o, i) ≡ some n
      → (j : IssuerId)
      → Split o r j (
          with_supply
            (Lookup.insert
              (r, i)
              (add_u64 n (unwrap_or 0 (Lookup.remove (o, i) s.supply_by_owner (r, i))))
              (Lookup.remove (o, i) s.supply_by_owner))
            s)
  merged-Split n s ne h e j = elim (Bool-cases (i == j)) [
    | inl same ↦ elim (h.split j) [
      | inl q ↦ inr (ground arith, ground (arith, q.0, q.1))
      | inr q ↦ absurd (ground (arith, q.0))
    ]
    | inr other ↦ elim (h.split j) [
      | inl q ↦ inl (ground (arith, q.0), ground (arith, q.1))
      | inr q ↦ inr (ground (arith, q.0), ground (arith, q.1))
    ]
  ]

pub move_supply-SupplyMoved :
    (o r : AccountId) (i : IssuerId) (s : Contract)
    → o ≢ r
    → Halfway o r s
    → Ensures (λ _ t. SupplyMoved o r i s t) (move_supply o r i s)
unfolding move_supply
move_supply-SupplyMoved o r i s ne h = Ensures-gets _ _ _ _ (
    Ensures-modify _ _ _ _ (
      Ensures-last _ _ _ _ (elim (Option-cases (s.supply_by_owner (o, i))) [
        | inl e ↦ rw e (record {
          halfway =
              with_supply-Halfway o r _ s h (λ p j a b. ground arith)
                λ j. forgotten-Split o r i s ne h e j;
          gone = ground arith;
          balances = refl;
        })
        | inr (n, e) ↦ rw e (record {
          halfway =
              with_supply-Halfway o r _ s h (λ p j a b. ground arith)
                λ j. merged-Split o r i n s ne h e j;
          gone = ground arith;
          balances = refl;
        })
      ])))

-- One token of `(i, c)`, whose number is `t`, changes hands.
pub record TokenMoved (o r : AccountId) (i : IssuerId) (c : ClassId) (t : TokenId) (s u : Contract)
    : Type 0 where
  pub halfway : Halfway o r u
  pub supplies : u.supply_by_owner ≡ s.supply_by_owner
  pub balances :
      (p : AccountId) (j : IssuerId) (d : ClassId)
      → lookup (balance_key p j d) u.balances ≡ (
          if p == o && (j == i && d == c)
          then none
          else if p == r && (j == i && d == c)
          then some t
          else lookup (balance_key p j d) s.balances)

move_token-TokenMoved :
    (r : AccountId) (k : BalanceKey) (t : TokenId) (s : Contract)
    → k.owner ≢ r
    → Halfway k.owner r s
    → lookup k s.balances ≡ some t
    → s.supply_by_owner (k.owner, k.issuer_id) ≡ none
    → Ensures (λ _ u. TokenMoved k.owner r k.issuer_id k.class_id t s u) (move_token r k t s)
unfolding move_token
move_token-TokenMoved r k t s ne h held gone = Ensures-gets _ _ _ _ (
    Ensures-modify _ _ _ _ (
      Ensures-require _ _ _ _ _ λ new. Ensures-modify _ _ _ _ (
        Ensures-gets _ _ _ _ (
          Ensures-expect _ _ _ _ _ λ td found.
            let free : lookup (balance_key r k.issuer_id k.class_id) s.balances ≡ none =
              ground arith in
            Ensures-last _ _ _ _ (record {
              halfway =
                  moved-Halfway k.owner r k.issuer_id k.class_id t td s ne h.linked held free found
                    h gone;
              supplies = refl;
              balances =
                  lookup-moved k.owner r k.issuer_id k.class_id t td s ne h.linked held free found;
            })))))

-- The same, for a key that is known to be the owner's.
pub move_token-TokenMoved_own :
    (o r : AccountId) (k : BalanceKey) (t : TokenId) (s : Contract)
    → k.owner ≡ o
    → o ≢ r
    → Halfway o r s
    → lookup (balance_key o k.issuer_id k.class_id) s.balances ≡ some t
    → s.supply_by_owner (o, k.issuer_id) ≡ none
    → Ensures (λ _ u. TokenMoved o r k.issuer_id k.class_id t s u) (move_token r k t s)
move_token-TokenMoved_own o r k t s own =
    subst
      (λ p.
        p ≢ r
        → Halfway p r s
        → lookup (balance_key p k.issuer_id k.class_id) s.balances ≡ some t
        → s.supply_by_owner (p, k.issuer_id) ≡ none
        → Ensures (λ _ u. TokenMoved p r k.issuer_id k.class_id t s u) (move_token r k t s))
      own (move_token-TokenMoved r k t s)
