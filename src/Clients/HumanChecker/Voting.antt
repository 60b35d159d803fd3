-- ===== src/Clients/HumanChecker/Voting.antt =====
-- A vote that the registry forwards, and the registry's lock: contracts/human_checker/src/lib.rs with
-- `is_human_call_lock` of contracts/registry/src/lib.rs.
use i_am_human.Base.{
  ℕ, ◌+◌, ◌≤◌, ◌<◌, ◌≡◌, ◌≢◌, refl, Bool, true, false, some, String, is_some, unwrap_or, arith, ok,
  is_empty, not, Bool-cases, inl, inr, ◌⊎◌, Ensures, Ensures-gets, Ensures-require,
  Ensures-require_last, Ensures-pure, Ensures-modify, Ensures-of_eq,
}
use i_am_human.Near.{AccountId, Env}
use i_am_human.Near.Words.{u64_mod}
use i_am_human.Near.Keys.{ℕ_key, list_eq_iff}
use i_am_human.Sbt.{Sbts}
use i_am_human.Registry as Registry
use i_am_human.Registry.Keys.{IssuerId}
use i_am_human.Registry.Invariant.{IsValid}
use i_am_human.Registry.Human.{Promise, is_human_call_lock}
use i_am_human.Registry.Human.Lock.{Onward, is_human_call_lock-forbids}
use i_am_human.Registry.Transfer.{sbt_soul_transfer}
use i_am_human.Clients.HumanChecker.{
  Contract, VotePayload, RegisterHumanPayload, voting_duration, vote, register_human_token,
  no_empty_list, expected_vec_payload, approve, reject,
}

-- A vote that is accepted came from the registry, for a proposal, while the caller was locked for the
-- voting period.
vote-guards :
    (env : Env) (caller : AccountId) (locked_until : ℕ) (payload : VotePayload) (s : Contract)
    → env.now + voting_duration < u64_mod
    → Ensures
        (λ _ t.
          (t ≡ s)
          × (env.predecessor ≡ s.registry)
          × (env.now + voting_duration ≤ locked_until)
          × (0 < payload.prop_id)
          × ((payload.vote ≡ approve) ⊎ (payload.vote ≡ reject)))
        (vote env caller locked_until payload s)
unfolding vote
vote-guards env caller locked_until payload s room = Ensures-gets _ _ _ _ (
    Ensures-require _ _ _ _ _ λ r. Ensures-require _ _ _ _ _ λ l. Ensures-require _ _ _ _ _ λ p.
      Ensures-require_last _ _ _ _ λ v. (
        refl,
        ground (arith, r),
        ground (arith, l, room),
        ground (arith, p),
        ground (arith, v, list_eq_iff payload.vote approve, list_eq_iff payload.vote reject),
      ))

-- In a valid registry whose IAH issuer does not have the number 0, when the registry forwards a
-- human's call with a lock to the checker, and the checker accepts a vote with the reported lock at
-- this or a later time, then until the voting period after that time is over every soul transfer of
-- the voter fails, whatever further calls of `is_human_call_lock` and whatever steps of the registry
-- that leave the locks alone have come between; the times fit in `u64`.
pub vote-forbids :
    (valid_json : String → Bool) (env : Env) (ctr : AccountId) (function text : String)
    (duration : ℕ) (with_proof : Bool) (s t : Registry.Contract) (p : Promise) (voting : Env)
    (payload : VotePayload) (c d : Contract) (lock : ℕ)
    → ((i : IssuerId) → s.sbt_issuers s.iah_sbts.0 ≡ some i → i ≢ 0)
    → IsValid s
    → 0 < duration
    → env.now + duration < u64_mod
    → voting.now + voting_duration < u64_mod
    → is_human_call_lock valid_json env ctr function text duration with_proof s ≡ ok (p, t)
    → p.locked_until ≡ some lock
    → vote voting p.caller lock payload c ≡ ok (tt, d)
    → (u : Registry.Contract) (later : Env) (r : AccountId) → Onward valid_json t u
    → later.predecessor ≡ env.predecessor
    → later.now ≤ voting.now + voting_duration
    → Ensures (λ _ _. ⊥) (sbt_soul_transfer later r u)
vote-forbids valid_json env ctr function text duration with_proof s t p voting payload c d lock ne v
      pos room fits e reported accepted u later r run same le =
    let g =
      Ensures-of_eq _ _
        (is_human_call_lock-forbids valid_json env ctr function text duration with_proof s ne v pos
          room)
        e in
    let h = Ensures-of_eq _ _ (vote-guards voting p.caller lock payload c fits) accepted in
    g.4 u later r run same (ground (arith, g.1, reported, h.2, le))

-- `register_human_token`, when it succeeds, was called by the registry with the expected numbers and
-- a proof that is not empty and has no empty list of tokens; it answers `true` exactly for an account
-- with no record, which it then records with the proof, and it never changes a record.
pub register_human_token-once :
    (env : Env) (caller : AccountId) (iah_proof : Sbts) (payload : RegisterHumanPayload)
    (s : Contract)
    → Ensures
        (λ b t.
          (env.predecessor ≡ s.registry)
          × (payload.numbers ≡ expected_vec_payload)
          × (is_empty iah_proof ≡ false)
          × (no_empty_list iah_proof ≡ true)
          × (b ≡ not (is_some (s.used_tokens caller)))
          × (t.used_tokens caller ≡ some (unwrap_or iah_proof (s.used_tokens caller)))
          × ((a : AccountId) → a ≢ caller → t.used_tokens a ≡ s.used_tokens a))
        (register_human_token env caller iah_proof payload s)
unfolding register_human_token
register_human_token-once env caller iah_proof payload s = Ensures-gets _ _ _ _ (
    Ensures-require _ _ _ _ _ λ r. Ensures-require _ _ _ _ _ λ n. Ensures-require _ _ _ _ _ λ h.
      Ensures-require _ _ _ _ _ λ l.
        Ensures-gets _ _ _ _ (elim (Bool-cases (is_some (s.used_tokens caller))) [
          | inl e ↦ rw e (
              Ensures-pure _ _ _ _ (
                ground (arith, r),
                (list_eq_iff payload.numbers expected_vec_payload).0 n,
                ground (arith, h),
                l,
                refl,
                ground (arith, e),
                λ a ne. refl,
              ))
          | inr e ↦ rw e (
              Ensures-modify _ _ _ _ (
                Ensures-pure _ _ _ _ (
                  ground (arith, r),
                  (list_eq_iff payload.numbers expected_vec_payload).0 n,
                  ground (arith, h),
                  l,
                  refl,
                  ground (arith, e),
                  λ a ne. ground (arith, ne),
                )))
        ]))
