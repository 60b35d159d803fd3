-- ===== src/Registry/SameTables.antt =====
-- Calls that leave the token tables alone.
use i_am_human.Base.{◌≡◌, refl, ◌∙◌}
use i_am_human.Near.{AccountId}
use i_am_human.Registry.{Contract}
use i_am_human.Registry.Invariant.{IsValid, Linked}
use i_am_human.Registry.Transfer.Halfway.{Halfway}

-- The tables of `t` are those of `s`.
pub record SameTables (s t : Contract) : Type 0 where
  pub owners : t.supply_by_owner ≡ s.supply_by_owner
  pub classes : t.supply_by_class ≡ s.supply_by_class
  pub issuers : t.supply_by_issuer ≡ s.supply_by_issuer
  pub balances : t.balances ≡ s.balances
  pub tokens : t.issuer_tokens ≡ s.issuer_tokens
  pub next : t.next_token_ids ≡ s.next_token_ids

pub SameTables-refl : (s : Contract) → SameTables s s
SameTables-refl s = record {
  owners = refl;
  classes = refl;
  issuers = refl;
  balances = refl;
  tokens = refl;
  next = refl;
}

pub SameTables-trans : (s t u : Contract) → SameTables s t → SameTables t u → SameTables s u
SameTables-trans s t u a b = record {
  owners = b.owners ∙ a.owners;
  classes = b.classes ∙ a.classes;
  issuers = b.issuers ∙ a.issuers;
  balances = b.balances ∙ a.balances;
  tokens = b.tokens ∙ a.tokens;
  next = b.next ∙ a.next;
}

module _ (s t : Contract) (e : SameTables s t) where
  Linked-same : Linked s.balances s.issuer_tokens → Linked t.balances t.issuer_tokens
  Linked-same l = rw (e.balances, e.tokens) l

  pub IsValid-same : IsValid s → IsValid t
  IsValid-same v = record {
    linked = Linked-same v.linked;
    owners = λ o i. rw (e.owners, e.balances) (v.owners o i);
    classes = λ i c. rw (e.classes, e.balances) (v.classes i c);
    issuers = λ i. rw (e.issuers, e.balances) (v.issuers i);
    numbered = λ i u. rw (e.tokens, e.next) (v.numbered i u);
  }

  pub Halfway-same : (o r : AccountId) → Halfway o r s → Halfway o r t
  Halfway-same o r h = record {
    linked = Linked-same h.linked;
    classes = λ i c. rw (e.classes, e.balances) (h.classes i c);
    issuers = λ i. rw (e.issuers, e.balances) (h.issuers i);
    numbered = λ i u. rw (e.tokens, e.next) (h.numbered i u);
    others = λ p j a b. rw (e.owners, e.balances) (h.others p j a b);
    split = λ j. rw (e.owners, e.balances) (h.split j);
  }
