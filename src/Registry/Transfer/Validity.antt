-- ===== src/Registry/Transfer/Validity.antt =====
-- The soul transfer as a whole, `_sbt_soul_transfer`, when no earlier call has begun it
-- (contracts/registry/src/lib.rs).
use i_am_human.Base.{
  ℕ, ◌≡◌, ◌≢◌, refl, ap, ◌∙◌, Bool, true, false, none, some, [], ◌∷◌, length, take, arith, inl, inr,
  Option-cases, Ensures, Ensures-bind, Ensures-gets, Ensures-require, Ensures-pure, Ensures-both,
}
use i_am_human.Near.{AccountId, Env}
use i_am_human.Near.Keys.{ℕ_key, pair_key}
use i_am_human.Near.Tree.{lookup, iter_from, count, Sorted}
use i_am_human.Near.Tree.Laws.{lookup-Above}
use i_am_human.Sbt.{TokenId, ClassId}
use i_am_human.Registry.{Contract}
use i_am_human.Registry.Keys.{IssuerId, balance_key, balance_ord, balance_eq_iff}
use i_am_human.Registry.Invariant.{IsValid, of_owner}
use i_am_human.Registry.SameTables.{SameTables, SameTables-trans, Halfway-same}
use i_am_human.Registry.Transfer.{soul_transfer_up_to}
use i_am_human.Registry.Transfer.Batch.{
  Entries, prefix, lookup-iter_from, iter_from-Sorted, iter_from-Above, take-Sorted, lookup-take,
  lookup-prefix, prefix-take, Above-take,
}
use i_am_human.Registry.Transfer.Halfway.{Halfway, IsValid-Halfway, Halfway-IsValid}
use i_am_human.Registry.Transfer.Loop.{Moved, Present, or_else, move_each-Moved}
use i_am_human.Registry.Transfer.Frame.{
  transfer_continuation-fresh, transfer_flag-SameTables, finish_transfer-SameTables, move_each-bans,
}

-- An owner without balances counts none.
count-none :
    (o : AccountId) (i : IssuerId) (m : Entries)
    → Sorted m
    → ((c : ClassId) → lookup (balance_key o i c) m ≡ none)
    → count (of_owner o i) m ≡ 0
unfolding lookup count
count-none o i [] so h = refl
count-none o i ((k, t) ∷ m) so h = ground (
  arith,
  h k.class_id,
  count-none o i m so.1
      λ c. ground (arith, h c, balance_eq_iff (balance_key o i c) k, lookup-Above k m so.0),
)

-- The batch that starts before the owner's first key.
abbrev pub batch_of : AccountId → ℕ → Entries → Entries
batch_of o limit m = take limit (iter_from (balance_key o 0 0) m)

module _ (o : AccountId) (limit : ℕ) (m : Entries) (so : Sorted m) where
  -- What the loop moves is in the registry.
  pub batch-held :
      (j : IssuerId) (d : ClassId) (t : TokenId)
      → lookup (balance_key o j d) (prefix o (batch_of o limit m)) ≡ some t
      → lookup (balance_key o j d) m ≡ some t
  batch-held j d t h = ground (
    arith,
    lookup-prefix (balance_key o 0 0) j d (batch_of o limit m)
        (take-Sorted limit _ (iter_from-Sorted _ m so))
        (Above-take _ limit _ (iter_from-Above (balance_key o 0 0) m)),
    lookup-take (balance_key o j d) limit (iter_from (balance_key o 0 0) m) t,
    lookup-iter_from (balance_key o 0 0) (balance_key o j d) m,
  )

  -- A batch that is not filled holds all that the owner has.
  pub batch-all :
      length (prefix o (batch_of o limit m)) ≢ limit
      → lookup (balance_key o 0 0) m ≡ none
      → (j : IssuerId) (d : ClassId)
      → lookup (balance_key o j d) (prefix o (batch_of o limit m)) ≡ lookup (balance_key o j d) m
  batch-all short z j d =
      rw
        (
          prefix-take o limit (iter_from (balance_key o 0 0) m) short,
          lookup-prefix (balance_key o 0 0) j d (iter_from (balance_key o 0 0) m)
              (iter_from-Sorted (balance_key o 0 0) m so) (iter_from-Above (balance_key o 0 0) m),
          lookup-iter_from (balance_key o 0 0) (balance_key o j d) m,
        )
        (ground (arith, balance_eq_iff (balance_key o j d) (balance_key o 0 0)))

-- The outcome of a finished transfer from `o` to `r`, from `s` to `t`.
pub record Transferred (o r : AccountId) (s t : Contract) : Type 0 where
  pub valid : IsValid t
  pub emptied : (j : IssuerId) (d : ClassId) → lookup (balance_key o j d) t.balances ≡ none
  pub arrived :
      (j : IssuerId) (d : ClassId)
      → lookup (balance_key r j d) t.balances
        ≡ or_else (lookup (balance_key o j d) s.balances) (lookup (balance_key r j d) s.balances)
  pub others :
      (p : AccountId) (j : IssuerId) (d : ClassId)
      → p ≢ o
      → p ≢ r
      → lookup (balance_key p j d) t.balances ≡ lookup (balance_key p j d) s.balances

-- No balance of the account has the issuer number 0, which is never given out.
abbrev pub Issued : AccountId → Contract → Type 0
Issued o s = (c : ClassId) → lookup (balance_key o 0 c) s.balances ≡ none

-- What the end of an unfilled batch comes to.
Moved-Transferred :
    (o r : AccountId) (limit : ℕ) (s u v t : Contract)
    → o ≢ r
    → IsValid s
    → Issued o s
    → SameTables s u
    → Moved o r (prefix o (batch_of o limit u.balances)) u v
    → SameTables v t
    → length (prefix o (batch_of o limit u.balances)) ≢ limit
    → Transferred o r s t
Moved-Transferred o r limit s u v t ne v0 issued e m f short = record {
  valid = Halfway-IsValid o r t ne half λ j. count-none o j t.balances half.linked.sorted (gone j);
  emptied = gone;
  arrived = λ j d. rw (f.balances, m.arrived j d, all j d, e.balances);
  others = λ p j d a b. rw (f.balances, m.others p j d a b, e.balances);
}
  where
    half : Halfway o r t
    half = Halfway-same v t f o r m.halfway

    all :
        (j : IssuerId) (d : ClassId)
        → lookup (balance_key o j d) (prefix o (batch_of o limit u.balances))
          ≡ lookup (balance_key o j d) u.balances
    all =
        batch-all o limit u.balances (rw e.balances v0.linked.sorted) short
          (rw e.balances (issued 0))

    gone : (j : IssuerId) (d : ClassId) → lookup (balance_key o j d) t.balances ≡ none
    gone j d = rw (f.balances) (ground (arith, m.left j d, all j d))

-- The loop finds what it needs.
batch-Present :
    (o : AccountId) (limit : ℕ) (s u : Contract)
    → IsValid s
    → Issued o s
    → SameTables s u
    → Present o (prefix o (batch_of o limit u.balances)) u
batch-Present o limit s u v0 issued e = record {
  held = held;
  issued = λ d.
      elim (Option-cases (lookup (balance_key o 0 d) (prefix o (batch_of o limit u.balances)))) [
        | inl h ↦ h
        | inr (t, h) ↦
            absurd
              (ground (arith, held 0 d t h, issued d, ap (lookup (balance_key o 0 d)) e.balances))
      ];
}
  where
    held :
        (j : IssuerId) (d : ClassId) (t : TokenId)
        → lookup (balance_key o j d) (prefix o (batch_of o limit u.balances)) ≡ some t
        → lookup (balance_key o j d) u.balances ≡ some t
    held = batch-held o limit u.balances (rw e.balances v0.linked.sorted)

-- In a valid registry, where the owner has no balance of an issuer 0, a successful soul transfer
-- to another account that no earlier call has begun bans the owner and keeps the tables in step
-- up to the split of the owner's and the recipient's supplies; when it reports completion, the
-- owner has no token, the recipient has those of the owner besides its own, the others have what
-- they had, and the registry is valid.
pub soul_transfer_up_to-Transferred :
    (env : Env) (r : AccountId) (limit : ℕ) (s : Contract)
    → env.predecessor ≢ r
    → IsValid s
    → Issued env.predecessor s
    → s.ongoing_soul_tx env.predecessor ≡ none
    → Ensures
        (λ q t.
          Halfway env.predecessor r t
          × (t.banlist env.predecessor ≡ true)
          × (q.1 ≡ true → Transferred env.predecessor r s t))
        (soul_transfer_up_to env r limit s)
unfolding soul_transfer_up_to
soul_transfer_up_to-Transferred env r limit s ne v issued fresh = Ensures-gets _ _ _ _ (
    Ensures-require _ _ _ _ _ λ _.
      Ensures-bind _ _ _ _ _ (transfer_continuation-fresh env.predecessor r s fresh) λ c a p.
        rw p.0 (
          Ensures-bind _ _ _ _ _ (transfer_flag-SameTables env.predecessor r a) λ _ u f.
            Ensures-gets _ _ _ _ (
              let e = SameTables-trans s a u p.1 f.0 in
              Ensures-bind _ _ _ _ _
                (Ensures-both _ _ _
                  (move_each-bans env.predecessor r 0 0 (batch_of env.predecessor limit u.balances)
                    u)
                  (move_each-Moved env.predecessor r ne 0 0
                    (batch_of env.predecessor limit u.balances) u
                    (take-Sorted limit _
                      (iter_from-Sorted _ u.balances (rw e.balances v.linked.sorted)))
                    (Halfway-same s u e env.predecessor r (IsValid-Halfway env.predecessor r s v))
                    (batch-Present env.predecessor limit s u v issued e) (inl refl)))
                λ n w m.
                  Ensures-bind _ _ _ _ _
                    (finish_transfer-SameTables env.predecessor r false n limit
                      (batch_of env.predecessor limit u.balances) w)
                    λ done t g. Ensures-pure _ _ _ _ (
                      Halfway-same w t g.0 env.predecessor r m.1.0.halfway,
                      ground (
                        arith,
                        p.2,
                        ap (λ (x : AccountId → Bool). x env.predecessor) (g.1 ∙ m.0 ∙ f.1),
                      ),
                      λ d.
                          Moved-Transferred env.predecessor r limit s u w t ne v issued e m.1.0 g.0
                            (λ h. g.2 d (omega (arith, m.1.1, h))),
                    ))))
