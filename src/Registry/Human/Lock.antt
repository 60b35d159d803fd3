-- ===== src/Registry/Human/Lock.antt =====
-- The lock that `is_human_call_lock` takes, and soul transfers (contracts/registry/src/lib.rs).
use i_am_human.Base.{
  ℕ, ◌+◌, ◌≤◌, ◌<◌, ◌≡◌, ◌≢◌, ◌==◌, refl, ap, ◌∙◌, subst, ok, Option, Ensures-of_eq, Bool, ◌&&◌,
  some, String, unwrap_or, ltb, arith, Bool-cases, inl, inr, Ensures, Ensures-bind, Ensures-gets,
  Ensures-require, Ensures-modify, Ensures-pure,
}
use i_am_human.Near.{AccountId, Env}
use i_am_human.Near.Words.{u64_mod, add_u64}
use i_am_human.Near.Keys.{ℕ_key}
use i_am_human.Registry.{Contract}
use i_am_human.Registry.Keys.{IssuerId}
use i_am_human.Registry.Invariant.{IsValid}
use i_am_human.Registry.Human.{Promise, extend_lock, is_human_call_lock}
use i_am_human.Registry.Human.Reads.{is_human-reads}
use i_am_human.Registry.Human.Sound.{is_human-Proves}
use i_am_human.Registry.Transfer.{sbt_soul_transfer}

-- A locked owner's soul transfer fails.
locked-fails :
    (env : Env) (r : AccountId) (lock : ℕ) (s : Contract)
    → s.transfer_locks env.predecessor ≡ some lock
    → env.now ≤ lock
    → Ensures (λ _ _. ⊥) (sbt_soul_transfer env r s)
unfolding sbt_soul_transfer
locked-fails env r lock s e le =
    Ensures-gets _ _ _ _ (Ensures-require _ _ _ _ _ λ h. ground (arith, h, e, le))

-- The lock is stored, and lasts for the duration asked at least.
extend_lock-stored :
    (env : Env) (duration : ℕ) (s : Contract)
    → 0 < duration
    → env.now + duration < u64_mod
    → Ensures
        (λ lock t.
          (t.transfer_locks env.predecessor ≡ some lock)
          × (env.now + duration ≤ lock)
          × (unwrap_or 0 (s.transfer_locks env.predecessor) ≤ lock))
        (extend_lock env duration s)
unfolding extend_lock
extend_lock-stored env duration s pos room =
    Ensures-gets _ _ _ _
      (elim (Bool-cases (
        ltb 0 duration
        && ltb (unwrap_or env.now (s.transfer_locks env.predecessor)) (add_u64 env.now duration))) [
          | inl grow ↦ rw grow (
              Ensures-modify _ _ _ _ (
                Ensures-modify _ _ _ _
                  (Ensures-pure _ _ _ _ (ground arith, omega arith, ground (arith, grow)))))
          | inr keep ↦ rw keep (
              Ensures-pure _ _ _ _
                (ground (arith, keep), ground (arith, keep), ground (arith, keep)))
        ])

-- The account has a lock that lasts at least until this time.
abbrev pub LockedTill : AccountId → ℕ → Contract → Type 0
LockedTill a time s = (lock : ℕ) × (s.transfer_locks a ≡ some lock) × (time ≤ lock)

-- No call makes a lock shorter, whoever makes it, when, and for what duration.
extend_lock-LockedTill :
    (a : AccountId) (time : ℕ) (env : Env) (duration : ℕ) (s : Contract)
    → LockedTill a time s
    → Ensures (λ _ t. LockedTill a time t) (extend_lock env duration s)
unfolding extend_lock
extend_lock-LockedTill a time env duration s (lock, e, le) =
    Ensures-gets _ _ _ _
      (elim (Bool-cases (
        ltb 0 duration
        && ltb (unwrap_or env.now (s.transfer_locks env.predecessor)) (add_u64 env.now duration))) [
          | inl grow ↦ rw grow (
              Ensures-modify _ _ _ _ (
                Ensures-modify _ _ _ _ (
                  Ensures-pure _ _ _ _ (elim (Bool-cases (env.predecessor == a)) [
                    | inl same ↦ (
                      add_u64 env.now duration,
                      ground (arith, same),
                      ground (arith, grow, same, e, le),
                    )
                    | inr other ↦ (lock, ground (arith, other, e), le)
                  ]))))
          | inr keep ↦ rw keep (Ensures-pure _ _ _ _ (lock, e, le))
        ])

module _ (valid_json : String → Bool) where
  is_human_call_lock-LockedTill :
      (a : AccountId) (time : ℕ) (env : Env) (ctr : AccountId) (function payload : String)
      (duration : ℕ) (with_proof : Bool) (s : Contract)
      → LockedTill a time s
      → Ensures
          (λ _ t. LockedTill a time t)
          (is_human_call_lock valid_json env ctr function payload duration with_proof s)
  unfolding is_human_call_lock
  is_human_call_lock-LockedTill a time env ctr function payload duration with_proof s h =
      Ensures-bind _ _ _ _ _ (is_human-reads env env.predecessor s) λ proof t e. rw e (
        Ensures-require _ _ _ _ _ λ _.
          Ensures-bind _ _ _ _ _ (extend_lock-LockedTill a time env duration s h)
            λ lock u g. Ensures-require _ _ _ _ _ λ _. Ensures-pure _ _ _ _ g)

  -- What can follow on a state: successful calls of `is_human_call_lock`, by any accounts, at any
  -- times and for any durations, and steps that leave the locks as they are.
  pub data Onward (s : Contract) : Contract → Type 0 where
    at_once : Onward s s
    locks :
        {t : Contract}
        → Onward s t
        → (env : Env) (ctr : AccountId) (function payload : String) (duration : ℕ)
          (with_proof : Bool) (p : Promise) (u : Contract)
        → is_human_call_lock valid_json env ctr function payload duration with_proof t ≡ ok (p, u)
        → Onward s u
    others :
        {t : Contract}
        → Onward s t
        → (u : Contract) → u.transfer_locks ≡ t.transfer_locks
        → Onward s u

  Onward-LockedTill :
      (a : AccountId) (time : ℕ) {s u : Contract}
      → Onward s u
      → LockedTill a time s
      → LockedTill a time u
  Onward-LockedTill a time at_once h = h
  Onward-LockedTill a time (locks {t} run env ctr function payload duration with_proof p u e) h =
      Ensures-of_eq _ _
        (is_human_call_lock-LockedTill a time env ctr function payload duration with_proof t
          (Onward-LockedTill a time run h))
        e
  Onward-LockedTill a time (others {t} run u e) h =
      let (lock, f, le) = Onward-LockedTill a time run h in
      (lock, ap (λ (m : AccountId → Option ℕ). m a) e ∙ f, le)

-- In a valid registry whose IAH issuer does not have the number 0, after a successful
-- `is_human_call_lock` for a positive duration, with times that fit in `u64`, the promise names a
-- lock of at least that duration, which is no shorter than the caller's lock before. Up to it every
-- soul transfer of the caller fails, whatever further calls of `is_human_call_lock`, by any accounts
-- and for any durations, and whatever steps that leave the locks alone have come between.
pub is_human_call_lock-forbids :
    (valid_json : String → Bool) (env : Env) (ctr : AccountId) (function payload : String)
    (duration : ℕ) (with_proof : Bool) (s : Contract)
    → ((i : IssuerId) → s.sbt_issuers s.iah_sbts.0 ≡ some i → i ≢ 0)
    → IsValid s
    → 0 < duration
    → env.now + duration < u64_mod
    → Ensures
        (λ p t.
          (lock : ℕ) × (p.locked_until ≡ some lock)
          × (env.now + duration ≤ lock)
          × (unwrap_or 0 (s.transfer_locks env.predecessor) ≤ lock)
          × ((u : Contract) (later : Env) (r : AccountId)
              → Onward valid_json t u
              → later.predecessor ≡ env.predecessor
              → later.now ≤ lock
              → Ensures (λ _ _. ⊥) (sbt_soul_transfer later r u)))
        (is_human_call_lock valid_json env ctr function payload duration with_proof s)
unfolding is_human_call_lock
is_human_call_lock-forbids valid_json env ctr function payload duration with_proof s ne v pos room =
    Ensures-bind _ _ _ _ _ (is_human-Proves env env.predecessor s ne v) λ proof t g.
      Ensures-require _ _ _ _ _ λ _.
        Ensures-bind _ _ _ _ _ (extend_lock-stored env duration t pos room) λ lock u h.
          Ensures-require _ _ _ _ _ λ _. Ensures-pure _ _ _ _ (
            lock,
            refl,
            h.1,
            subst (λ (x : Contract). unwrap_or 0 (x.transfer_locks env.predecessor) ≤ lock) g.0 h.2,
            λ w later r run same le.
                let (longer, e, k) =
                  Onward-LockedTill valid_json env.predecessor lock run (lock, h.0, omega arith) in
                locked-fails later r longer w (rw same e) (omega (arith, le, k)),
          )
