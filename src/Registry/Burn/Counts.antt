-- ===== src/Registry/Burn/Counts.antt =====
-- The loop of `sbt_burn` and the tables (contracts/registry/src/lib.rs).
use i_am_human.Base.{
  ℕ, suc, ◌+◌, ◌≡◌, refl, ◌&&◌, some, List, [], ◌∷◌, length, if◌then◌else◌, arith, ◌==◌, Ensures,
  Ensures-require, Ensures-mono, ==_iff, Ensures-pure, Ensures-modify, Ensures-gets, Ensures-expect,
}
use i_am_human.Near.{AccountId}
use i_am_human.Near.Words.{sub_u64}
use i_am_human.Near.Keys.{ℕ_key, pair_key}
use i_am_human.Near.Lookup
use i_am_human.Near.Tree
use i_am_human.Near.Tree.{count, lookup}
use i_am_human.Near.Tree.Laws.{count-remove}
use i_am_human.Sbt.{TokenId, ClassId, to_v1}
use i_am_human.Registry.{Contract}
use i_am_human.Registry.Keys.{IssuerId, token_id, token_key, balance_key, balance_ord}
use i_am_human.Registry.Invariant.{
  Linked, Linked-drop, ClassesCounted, Numbered, of_owner, of_class, of_issuer, holder,
}
use i_am_human.Registry.Tables.Rules.{Ensures-decrease_class}
use i_am_human.Registry.Burn.{burn_each}

-- From `s` to `t`, `n` tokens of the owner and the issuer went, and their class supplies with them.
pub record Burnt (o : AccountId) (i : IssuerId) (n : ℕ) (s t : Contract) : Type 0 where
  pub linked : Linked t.balances t.issuer_tokens
  pub classes : ClassesCounted t
  pub numbered : Numbered t
  pub of_owners :
      (p : AccountId) (j : IssuerId)
      → count (of_owner p j) t.balances + (if o == p && i == j then n else 0)
        ≡ count (of_owner p j) s.balances
  pub of_issuers :
      (j : IssuerId)
      → count (of_issuer j) t.balances + (if i == j then n else 0) ≡ count (of_issuer j) s.balances
  pub same_owners : t.supply_by_owner ≡ s.supply_by_owner
  pub same_issuers : t.supply_by_issuer ≡ s.supply_by_issuer
  pub same_next : t.next_token_ids ≡ s.next_token_ids

-- The state after one token is dropped and its class decreased from `supply`.
abbrev dropped : AccountId → IssuerId → ClassId → TokenId → ℕ → Contract → Contract
dropped o i c t supply s = record s {
  issuer_tokens = Lookup.remove (token_id i t) s.issuer_tokens;
  balances = Tree.remove (balance_key o i c) s.balances;
  supply_by_class = Lookup.insert (i, c) (sub_u64 supply 1) s.supply_by_class;
}

pub dropped-Burnt :
    (o : AccountId) (i : IssuerId) (c : ClassId) (t : TokenId) (supply : ℕ) (s : Contract)
    → Linked s.balances s.issuer_tokens
    → ClassesCounted s
    → Numbered s
    → holder (s.issuer_tokens (token_id i t)) ≡ some (o, c)
    → s.supply_by_class (i, c) ≡ some supply
    → Burnt o i 1 s (dropped o i c t supply s)
dropped-Burnt o i c t supply s l cs nu h k =
    let found : lookup (balance_key o i c) s.balances ≡ some t = (l.link o i c t).1 h in
    record {
      linked = Linked-drop s.balances s.issuer_tokens l o i c t found;
      classes = λ j d. ground (
        arith,
        count-remove (of_class j d) (balance_key o i c) t s.balances found,
        cs j d,
        cs i c,
      );
      numbered = λ j u. ground (arith, nu j u);
      of_owners =
          λ p j. ground (arith, count-remove (of_owner p j) (balance_key o i c) t s.balances found);
      of_issuers =
          λ j. ground (arith, count-remove (of_issuer j) (balance_key o i c) t s.balances found);
      same_owners = refl;
      same_issuers = refl;
      same_next = refl;
    }

Burnt-zero :
    (o : AccountId) (i : IssuerId) (s : Contract)
    → Linked s.balances s.issuer_tokens
    → ClassesCounted s
    → Numbered s
    → Burnt o i 0 s s
Burnt-zero o i s l cs nu = record {
  linked = l;
  classes = cs;
  numbered = nu;
  of_owners = λ p j. ground arith;
  of_issuers = λ j. ground arith;
  same_owners = refl;
  same_issuers = refl;
  same_next = refl;
}

pub Burnt-step :
    (o : AccountId) (i : IssuerId) (n : ℕ) (s t u : Contract)
    → Burnt o i 1 s t
    → Burnt o i n t u
    → Burnt o i (suc n) s u
Burnt-step o i n s t u a b = record {
  linked = b.linked;
  classes = b.classes;
  numbered = b.numbered;
  of_owners = λ p j. ground (arith, a.of_owners p j, b.of_owners p j);
  of_issuers = λ j. ground (arith, a.of_issuers j, b.of_issuers j);
  same_owners = cc (a.same_owners, b.same_owners);
  same_issuers = cc (a.same_issuers, b.same_issuers);
  same_next = cc (a.same_next, b.same_next);
}

pub burn_each-Burnt :
    (o : AccountId) (i : IssuerId) (seen tokens : List TokenId) (s : Contract)
    → Linked s.balances s.issuer_tokens
    → ClassesCounted s
    → Numbered s
    → Ensures (λ _ t. Burnt o i (length tokens) s t) (burn_each o i seen tokens s)
unfolding burn_each
burn_each-Burnt o i seen [] s l cs nu = Ensures-pure _ _ tt s (Burnt-zero o i s l cs nu)
burn_each-Burnt o i seen (tid ∷ tokens) s l cs nu = Ensures-require _ _ _ _ _ λ fresh.
    Ensures-gets _ _ _ _ (
      Ensures-expect _ _ _ _ _ λ td found. Ensures-require _ _ _ _ _ λ own. Ensures-modify _ _ _ _ (
        Ensures-decrease_class _ _ _ 1 _ _ λ n e.
          let c = (to_v1 td.metadata).class in
          let s' = dropped o i c tid n s in
          let h = dropped-Burnt o i c tid n s l cs nu (ground (arith, ==_iff td.owner o)) e in
          Ensures-mono _ _ _ (λ _ t. Burnt-step o i (length tokens) s s' t h)
            (burn_each-Burnt o i (tid ∷ seen) tokens s' h.linked h.classes h.numbered)))
