-- ===== src/Clients/Ubi/Daily.antt =====
-- How often an account is paid (contracts/ubi/src/lib.rs).
use i_am_human.Base.{
  ℕ, ◌+◌, ◌/◌, ◌≤◌, ◌<◌, ◌≡◌, ◌≢◌, refl, sym, subst, Bool-cases, inl, inr, ◌==◌, ltb, lt→ltb, ◌-◌,
  Bool, true, false, none, Option, some, arith, ok, ◌>>◌, Ensures, Ensures-gets, Ensures-expect,
  Ensures-require, Ensures-modify, Ensures-pure, Ensures-mono, Ensures-of_eq, Returns, Returns-bind,
  Returns-gets, Returns-expect, Returns-require, Returns-modify, Returns-pure,
}
use i_am_human.Near.{AccountId, Env}
use i_am_human.Near.Words.{u64_mod, add_u64, sub_u64}
use i_am_human.Near.Keys.{ℕ_key}
use i_am_human.Near.Lookup.{insert}
use i_am_human.Clients.Ubi.{UbiCheck, Contract, day, ttl, claim, register_callback}

-- The account's last claim is at this time or later, and the next one's time does not wrap around.
abbrev ClaimedSince : AccountId → ℕ → Contract → Type 0
ClaimedSince a time s =
    (check : UbiCheck) × (s.humans a ≡ some check)
    × (time ≤ check.last_claim)
    × (check.last_claim + day < u64_mod)

-- Calls that succeed, of any accounts at any times, except that the class does not qualify `a` again.
pub data Run (a : AccountId) (s : Contract) : Contract → Type 0 where
  done : Run a s s
  claims :
      {t : Contract}
      → Run a s t
      → (env : Env) (pay : AccountId × ℕ) (u : Contract) → env.now < u64_mod
      → claim env t ≡ ok (pay, u)
      → Run a s u
  registers :
      {t : Contract}
      → Run a s t
      → (env : Env) (b : AccountId) (value : Option Bool) (r : Bool) (u : Contract) → a ≢ b
      → register_callback env b value t ≡ ok (r, u)
      → Run a s u

-- A claim that succeeds pays the emission to the caller, a day at least after its last claim, and
-- before its proof expires.
claim-pays :
    (env : Env) (s : Contract)
    → Ensures
        (λ pay t.
          (pay ≡ (env.predecessor, s.emission))
          × ((check : UbiCheck) × (s.humans env.predecessor ≡ some check)
              × (add_u64 check.last_claim day < env.now / 1000)
              × (env.now / 1000 < check.expires_at)
              × (t ≡ record s {
                humans =
                    insert env.predecessor (record check { last_claim = env.now / 1000 }) s.humans;
              })))
        (claim env s)
unfolding claim
claim-pays env s = Ensures-gets _ _ _ _ (
    Ensures-expect _ _ _ _ _ λ check h. Ensures-require _ _ _ _ _ λ e.
      Ensures-require _ _ _ _ _ λ d. Ensures-modify _ _ _ _ (
        Ensures-gets _ _ _ _
          (Ensures-pure _ _ _ _ (refl, (check, h, ground (arith, d), ground (arith, e), refl)))))

-- A time in seconds is far from the end of `u64`.
seconds-small : (now : ℕ) → now < u64_mod → now / 1000 + day < u64_mod
seconds-small now h = omega (arith, h)

claimed_now :
    (a : AccountId) (time now : ℕ) (check : UbiCheck) (t : Contract)
    → now < u64_mod
    → t.humans a ≡ some check
    → add_u64 check.last_claim day < now / 1000
    → ClaimedSince a time t
    → ClaimedSince a time
        (record t { humans = insert a (record check { last_claim = now / 1000 }) t.humans })
claimed_now a time now check t small e d (c, h, l, r) = (
  record check { last_claim = now / 1000 },
  ground arith,
  ground (arith, e, h, l, r, d),
  seconds-small now small,
)

claim-ClaimedSince :
    (a : AccountId) (time : ℕ) (env : Env) (t : Contract)
    → env.now < u64_mod
    → ClaimedSince a time t
    → Ensures (λ _ u. ClaimedSince a time u) (claim env t)
claim-ClaimedSince a time env t small h =
    Ensures-mono _ _ _
      (λ pay u g.
        subst (ClaimedSince a time) (sym g.1.4) (elim (Bool-cases (env.predecessor == a)) [
          | inl e ↦
              subst
                (λ b. ClaimedSince a time (record t {
                  humans = insert b (record g.1.0 { last_claim = env.now / 1000 }) t.humans;
                }))
                (sym (ground (arith, e)))
                (claimed_now a time env.now g.1.0 t small (ground (arith, e, g.1.1)) g.1.2 h)
          | inr e ↦ (h.0, ground (arith, e, h.1), h.2, h.3)
        ]))
      (claim-pays env t)

register_callback-others :
    (a b : AccountId) (time : ℕ) (env : Env) (value : Option Bool) (t : Contract)
    → a ≢ b
    → ClaimedSince a time t
    → Ensures (λ _ u. ClaimedSince a time u) (register_callback env b value t)
unfolding register_callback
register_callback-others a b time env none t ne h = Ensures-pure _ _ _ _ h
register_callback-others a b time env (some false) t ne h = Ensures-pure _ _ _ _ h
register_callback-others a b time env (some true) t ne h =
    Ensures-modify _ _ _ _ (Ensures-pure _ _ _ _ (h.0, ground (arith, ne, h.1), h.2, h.3))

Run-ClaimedSince :
    (a : AccountId) (time : ℕ) {s u : Contract}
    → Run a s u
    → ClaimedSince a time s
    → ClaimedSince a time u
Run-ClaimedSince a time done h = h
Run-ClaimedSince a time (claims {t} run env pay u small e) h =
    Ensures-of_eq _ _ (claim-ClaimedSince a time env t small (Run-ClaimedSince a time run h)) e
Run-ClaimedSince a time (registers {t} run env b value r u ne e) h =
    Ensures-of_eq _ _
      (register_callback-others a b time env value t ne (Run-ClaimedSince a time run h)) e

-- After a claim that succeeds, whatever calls of other accounts and of the same one follow but for a
-- new qualification of the same one, the account's next claim that succeeds is more than a day
-- later; block times are in `u64`.
pub claim-daily :
    (first second : Env) (paid again : AccountId × ℕ) (s t u w : Contract)
    → first.now < u64_mod
    → claim first s ≡ ok (paid, t)
    → Run first.predecessor t u
    → second.predecessor ≡ first.predecessor
    → claim second u ≡ ok (again, w)
    → first.now / 1000 + day < second.now / 1000
claim-daily first second paid again s t u w small e run same f =
    let g = Ensures-of_eq _ _ (claim-pays first s) e in
    let since = Run-ClaimedSince first.predecessor (first.now / 1000) run (
      record g.1.0 { last_claim = first.now / 1000 },
      ground (arith, g.1.4),
      omega arith,
      seconds-small first.now small,
    ) in
    let h = Ensures-of_eq _ _ (claim-pays second u) f in
    ground (arith, h.1.1, h.1.2, since.1, since.2, since.3, same)

-- The record of an account that qualifies now.
abbrev qualified : ℕ → UbiCheck
qualified now = record {
  last_claim = sub_u64 (sub_u64 (now / 1000) day) 1;
  expires_at = add_u64 (now / 1000) ttl;
}

sub-day : (n : ℕ) → day < n → n < u64_mod → sub_u64 (sub_u64 n day) 1 ≡ n - day - 1
sub-day n late small = omega (arith, late, small)

qualified-claims :
    (now : ℕ)
    → day < now / 1000
    → now < u64_mod
    → (ltb (now / 1000) (qualified now).expires_at ≡ true)
      × (ltb (add_u64 (qualified now).last_claim day) (now / 1000) ≡ true)
qualified-claims now late small = (
  lt→ltb _ _ (omega (arith, small)),
  lt→ltb _ _ (omega (arith, late, small, sub-day (now / 1000) late (omega (arith, small)))),
)

-- An account that the class qualifies can claim at once, whatever it has claimed before, after the
-- first day of the clock.
pub register_callback-claim :
    (env claiming : Env) (account : AccountId) (s : Contract)
    → day < env.now / 1000
    → env.now < u64_mod
    → claiming.predecessor ≡ account
    → claiming.now ≡ env.now
    → Returns
        (λ paid _. paid ≡ (account, s.emission))
        ((register_callback env account (some true) >> claim claiming) s)
unfolding register_callback claim
register_callback-claim env claiming account s late small same now =
    Returns-bind _ (λ _ t. t ≡ record s { humans = insert account (qualified env.now) s.humans }) _
      _ _ (Returns-modify _ _ _ _ (Returns-pure _ _ _ _ refl))
      λ _ t e. rw e (
        Returns-gets _ _ _ _ (
          Returns-expect _ _ _ _ _ (qualified env.now) (ground (arith, same)) (
            Returns-require _ _ _ _ _ (rw now (qualified-claims env.now late small).0) (
              Returns-require _ _ _ _ _ (rw now (qualified-claims env.now late small).1) (
                Returns-modify _ _ _ _
                  (Returns-gets _ _ _ _ (Returns-pure _ _ _ _ (rw same refl))))))))
