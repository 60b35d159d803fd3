-- ===== src/Registry/Query/Supplies.antt =====
-- The supply of a class at an owner (contracts/registry/src/registry.rs).
use i_am_human.Base.{◌≡◌, refl, none, some, ◌≢◌, Option-cases, inl, inr}
use i_am_human.Near.{AccountId}
use i_am_human.Near.Keys.{ℕ_key, pair_key}
use i_am_human.Near.Tree.{lookup}
use i_am_human.Sbt.{ClassId, TokenId}
use i_am_human.Registry.{Contract}
use i_am_human.Registry.Keys.{IssuerId, balance_key, balance_ord, token_id, token_key}
use i_am_human.Registry.Invariant.{IsValid, holder}
use i_am_human.Registry.Query.{sbt_supply_by_owner}

-- In a valid registry an account in no transfer has the supply 1 of an issuer's class if some token
-- of the issuer is recorded as the account's and of the class, and 0 if none is.
pub class_supply-token :
    (issuer owner : AccountId) (i : IssuerId) (c : ClassId) (s : Contract)
    → IsValid s
    → s.sbt_issuers issuer ≡ some i
    → s.ongoing_soul_tx owner ≡ none
    → ((t : TokenId)
        → holder (s.issuer_tokens (token_id i t)) ≡ some (owner, c)
        → sbt_supply_by_owner owner issuer (some c) s ≡ 1)
      × (((t : TokenId) → holder (s.issuer_tokens (token_id i t)) ≢ some (owner, c))
          → sbt_supply_by_owner owner issuer (some c) s ≡ 0)
unfolding sbt_supply_by_owner
class_supply-token issuer owner i c s v e free = (
  (λ t h. rw (e, free, (v.linked.link owner i c t).1 h) refl),
  λ no. elim (Option-cases (lookup (balance_key owner i c) s.balances)) [
    | inl z ↦ rw (e, free, z) refl
    | inr (t, z) ↦ absurd (no t ((v.linked.link owner i c t).0 z))
  ],
)
