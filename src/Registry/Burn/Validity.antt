-- ===== src/Registry/Burn/Validity.antt =====
-- The invariant and `sbt_burn` (contracts/registry/src/lib.rs).
use i_am_human.Base.{
  ℕ, ◌≡◌, some, List, length, arith, ap, Option, Ensures, Ensures-bind, Ensures-require,
  Ensures-gets, Ensures-last,
}
use i_am_human.Near.{AccountId, Env}
use i_am_human.Near.Words.{sub_u64}
use i_am_human.Near.Keys.{ℕ_key, pair_key}
use i_am_human.Near.Lookup.{insert}
use i_am_human.Sbt.{TokenId}
use i_am_human.Registry.{Contract}
use i_am_human.Registry.Keys.{IssuerId}
use i_am_human.Registry.Rules.{Ensures-assert_issuer}
use i_am_human.Registry.Invariant.{IsValid}
use i_am_human.Registry.Burn.{sbt_burn}
use i_am_human.Registry.Tables.Rules.{Ensures-decrease_owner, Ensures-decrease_issuer}
use i_am_human.Registry.Burn.Counts.{Burnt, burn_each-Burnt}

-- With the two supplies decreased, the invariant holds again.
pub Burnt-IsValid :
    (o : AccountId) (i : IssuerId) (n a b : ℕ) (s t : Contract)
    → IsValid s
    → Burnt o i n s t
    → t.supply_by_owner (o, i) ≡ some a
    → t.supply_by_issuer i ≡ some b
    → IsValid (record t {
      supply_by_owner = insert (o, i) (sub_u64 a n) t.supply_by_owner;
      supply_by_issuer = insert i (sub_u64 b n) t.supply_by_issuer;
    })
Burnt-IsValid o i n a b s t v h ea eb = record {
  linked = h.linked;
  owners = λ p j. ground (
    arith,
    v.owners p j,
    v.owners o i,
    h.of_owners p j,
    h.of_owners o i,
    ap (λ (m : AccountId × IssuerId → Option ℕ). m (p, j)) h.same_owners,
    ap (λ (m : AccountId × IssuerId → Option ℕ). m (o, i)) h.same_owners,
  );
  classes = h.classes;
  issuers = λ j. ground (
    arith,
    v.issuers j,
    v.issuers i,
    h.of_issuers j,
    h.of_issuers i,
    ap (λ (m : IssuerId → Option ℕ). m j) h.same_issuers,
    ap (λ (m : IssuerId → Option ℕ). m i) h.same_issuers,
  );
  numbered = h.numbered;
}

-- In a valid registry a successful `sbt_burn` leaves a valid one.
pub sbt_burn-IsValid :
    (env : Env) (issuer : AccountId) (tokens : List TokenId) (s : Contract)
    → IsValid s
    → Ensures (λ _ t. IsValid t) (sbt_burn env issuer tokens s)
unfolding sbt_burn
sbt_burn-IsValid env issuer tokens s v = Ensures-gets _ _ _ _ (
    Ensures-require _ _ _ _ _ λ _. Ensures-assert_issuer _ _ _ _ λ i _.
      Ensures-bind _ _ _ _ _
        (burn_each-Burnt env.predecessor i _ tokens s v.linked v.classes v.numbered)
        λ _ t h. Ensures-decrease_owner _ _ _ _ _ _ λ a ea.
          Ensures-decrease_issuer _ _ _ _ _ λ b eb. Ensures-last _ _ _ _ (
            let w = Burnt-IsValid env.predecessor i (length tokens) a b s t v h ea eb in
            record {
              linked = w.linked;
              owners = w.owners;
              classes = w.classes;
              issuers = w.issuers;
              numbered = w.numbered;
            }))
