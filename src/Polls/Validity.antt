-- ===== src/Polls/Validity.antt =====
-- EasyPoll's operations as wholes: `create_poll`, `respond` and the callback
-- (contracts/easy-poll/src/lib.rs).
use i_am_human.Base.{
  ℕ, ◌+◌, ◌≤◌, ◌<◌, ◌≡◌, ◌≢◌, refl, ap, ◌∙◌, Bool, true, false, ◌&&◌, Option, none, some, is_some,
  List, [], ◌∷◌, length, arith, ◌==◌, is_empty, pure, ◌>>◌, inl, inr, Bool-cases, Option-cases,
  Ensures, Ensures-assoc, Ensures-bind, Ensures-gets, Ensures-require, Ensures-expect,
  Ensures-modify, Ensures-pure, Ensures-pure_bind, Ensures-last, Ensures-both, Returns,
  Returns-Ensures, Returns-bind, Returns-gets, Returns-require, Returns-expect, Returns-last,
  Returns-mono,
}
use i_am_human.Near.{AccountId, Env}
use i_am_human.Near.Words.{u64_mod, add_u64}
use i_am_human.Near.Keys.{ℕ_key, pair_key}
use i_am_human.Near.Lookup.{eq_refl}
use i_am_human.Sbt.{Sbts}
use i_am_human.Polls.{PollId, Text, Answer, Question, Poll, Results, Contract}
use i_am_human.Polls.Vote.{
  initialize_results, create_poll, on_human_verifed, respond, assert_active, assert_not_answered,
  check_deposit,
}
use i_am_human.Polls.Invariant.{IsValid, all_fit, poll_matches, all_match-initial}
use i_am_human.Polls.Tallies.{TalliedIn, count_answers-AllTallied}
use i_am_human.Polls.Counting.{count_answers-match, count_answers-Returns}

-- In a valid contract, while poll numbers fit in `u64`, a successful `create_poll` takes a number
-- that no poll has, changes no other poll and no other poll's results, and leaves a valid
-- contract.
pub create_poll-IsValid :
    (env : Env) (iah_only : Bool) (questions : List Question) (starts_at ends_at : ℕ) (title : Text)
    (tags : List Text) (description link : Text) (s : Contract)
    → IsValid s
    → s.next_poll_id + 1 < u64_mod
    → Ensures
        (λ id t.
          IsValid t
          × (s.polls id ≡ none)
          × ((j : PollId) → j ≢ id → (t.polls j ≡ s.polls j) × (t.results j ≡ s.results j)))
        (create_poll env iah_only questions starts_at ends_at title tags description link s)
unfolding create_poll initialize_results poll_matches
create_poll-IsValid env iah_only questions starts_at ends_at title tags description link s v room =
    Ensures-require _ _ _ _ _ λ _. Ensures-gets _ _ _ _ (
      Ensures-modify _ _ _ _ (
        Ensures-modify _ _ _ _ (
          Ensures-modify _ _ _ _ (
            Ensures-pure _ _ _ _ (
              record {
                matched = λ j. ground (arith, v.matched j, all_match-initial questions);
                unused = λ j l. ground (arith, v.unused j);
              },
              ground (arith, v.unused s.next_poll_id),
              λ j a. (ground arith, ground arith),
            )))))

-- Answers that fit are as many as the questions.
all_fit-length :
    (questions : List Question) (answers : List (Option Answer))
    → all_fit questions answers ≡ true
    → (length questions == length answers) ≡ true
unfolding all_fit
all_fit-length [] [] h = refl
all_fit-length [] (a ∷ answers) h = absurd (ground (arith, h))
all_fit-length (q ∷ questions) [] h = absurd (ground (arith, h))
all_fit-length (q ∷ questions) (a ∷ answers) h = ground (arith, all_fit-length questions answers)

-- The number of those who answered a poll went up by one.
abbrev pub OneMore : Option Results → Option Results → Type 0
OneMore none t = ⊥
OneMore (some r) none = ⊥
OneMore (some r) (some q) = q.participants_num ≡ add_u64 r.participants_num 1

-- In a valid contract, a callback that succeeds leaves a valid contract in which the poll has one
-- more participant (modulo 2 ^ 64), the caller among them; polls stay, and so do the results of
-- the others.
pub on_human_verifed-counts :
    (tokens : Sbts) (iah_only : Bool) (caller : AccountId) (id : PollId)
    (answers : List (Option Answer)) (s : Contract)
    → IsValid s
    → Ensures
        (λ _ t.
          IsValid t
          × (t.participants (id, caller) ≡ true)
          × OneMore (s.results id) (t.results id)
          × (t.polls ≡ s.polls)
          × ((j : PollId) → j ≢ id → t.results j ≡ s.results j))
        (on_human_verifed tokens iah_only caller id answers s)
unfolding on_human_verifed poll_matches
on_human_verifed-counts tokens iah_only caller id answers s v = Ensures-require _ _ _ _ _ λ _.
    Ensures-gets _ _ _ _ (
      Ensures-expect _ _ _ _ _ λ poll p. Ensures-gets _ _ _ _ (
        Ensures-expect _ _ _ _ _ λ res r. Ensures-require _ _ _ _ _ λ _.
          Ensures-bind _ _ _ _ _
            (count_answers-match 0 poll.questions answers res.results s
              (ground (arith, p, r, v.matched id)))
            λ c t k. Ensures-last _ _ _ _ (
              rw k.1 (
                record { matched = λ j. ground (arith, p, k.0, v.matched j); unused = v.unused },
                ground arith,
                rw r (ground arith),
                refl,
                λ j a. ground arith,
              ))))

-- What a callback that succeeds on answers that fit has counted.
on_human_verifed-tallies :
    (tokens : Sbts) (iah_only : Bool) (caller : AccountId) (id : PollId)
    (answers : List (Option Answer)) (p : Poll) (s : Contract)
    → IsValid s
    → s.polls id ≡ some p
    → all_fit p.questions answers ≡ true
    → Ensures
        (λ _ t. TalliedIn answers (s.results id) (t.results id))
        (on_human_verifed tokens iah_only caller id answers s)
unfolding on_human_verifed poll_matches
on_human_verifed-tallies tokens iah_only caller id answers p s v h f =
    Ensures-require _ _ _ _ _ λ _. Ensures-gets _ _ _ _ (
      Ensures-expect _ _ _ _ _ λ poll e. Ensures-gets _ _ _ _ (
        Ensures-expect _ _ _ _ _ λ res r. Ensures-require _ _ _ _ _ λ _.
          Ensures-bind _ _ _ _ _
            (count_answers-AllTallied 0 poll.questions answers res.results s
              (ground (arith, e, r, v.matched id)) (ground (arith, e, h, f)))
            λ c t k. Ensures-last _ _ _ _ (rw (k.1, r, eq_refl id) k.0)))

-- In a valid contract the callback succeeds on answers that fit the questions of an existing
-- poll, with a proof that is not empty where one is asked for; it leaves a valid contract in
-- which the poll has one more participant (modulo 2 ^ 64), the caller among them, and changes no
-- poll and no other poll's results. It counts every answer in the result of its question: a yes or
-- a no, each choice as often as it is made, an opinion in the sum and the number of them, each modulo
-- the size of its counter; an answer left out and a text change nothing.
pub on_human_verifed-Returns :
    (tokens : Sbts) (iah_only : Bool) (caller : AccountId) (id : PollId)
    (answers : List (Option Answer)) (p : Poll) (s : Contract)
    → IsValid s
    → s.polls id ≡ some p
    → all_fit p.questions answers ≡ true
    → (iah_only && is_empty tokens) ≡ false
    → Returns
        (λ _ t.
          IsValid t
          × (t.participants (id, caller) ≡ true)
          × OneMore (s.results id) (t.results id)
          × (t.polls ≡ s.polls)
          × ((j : PollId) → j ≢ id → t.results j ≡ s.results j)
          × TalliedIn answers (s.results id) (t.results id))
        (on_human_verifed tokens iah_only caller id answers s)
unfolding on_human_verifed poll_matches
on_human_verifed-Returns tokens iah_only caller id answers p s v h f human =
    Returns-mono _ _ _ (λ _ t q. (q.1.0.0, q.1.0.1, q.1.0.2, q.1.0.3, q.1.0.4, q.1.1))
      (Returns-Ensures (λ _ _. Unit {0}) _ _
        (Returns-require _ _ _ _ _ (rw human refl) (
          Returns-gets _ _ _ _ (
            Returns-expect _ _ _ _ _ p h (
              Returns-gets _ _ _ _ (elim (Option-cases (s.results id)) [
                | inl e ↦ absurd (ground (arith, v.matched id))
                | inr (res, e) ↦ Returns-expect _ _ _ _ _ res e (
                    Returns-require _ _ _ _ _ (all_fit-length p.questions answers f) (
                      Returns-bind _ _ _ _ _
                        (count_answers-Returns 0 p.questions answers res.results s
                          (ground (arith, h, e, v.matched id)) f)
                        λ c t k. Returns-last _ _ _ _ tt))
              ])))))
        (Ensures-both _ _ _ (on_human_verifed-counts tokens iah_only caller id answers s v)
          (on_human_verifed-tallies tokens iah_only caller id answers p s v h f)))

-- In a valid contract, of two callbacks for the same caller and poll, one after the other, whose
-- answers fit the poll's questions, with a proof that is not empty where one is asked for, both
-- succeed, and each adds one participant (modulo 2 ^ 64).
pub on_human_verifed-twice :
    (tokens : Sbts) (iah_only : Bool) (caller : AccountId) (id : PollId)
    (first second : List (Option Answer)) (p : Poll) (s : Contract)
    → IsValid s
    → s.polls id ≡ some p
    → all_fit p.questions first ≡ true
    → all_fit p.questions second ≡ true
    → (iah_only && is_empty tokens) ≡ false
    → Returns
        (λ _ t.
          (u : Contract) × OneMore (s.results id) (u.results id)
          × OneMore (u.results id) (t.results id))
        ((on_human_verifed tokens iah_only caller id first
            >> on_human_verifed tokens iah_only caller id second)
          s)
on_human_verifed-twice tokens iah_only caller id first second p s v h f g human =
    Returns-bind _ _ _ _ _
      (on_human_verifed-Returns tokens iah_only caller id first p s v h f human)
      λ _ u a.
        Returns-mono _ _ _ (λ _ t b. (u, a.2, b.2))
          (on_human_verifed-Returns tokens iah_only caller id second p u a.0
            (ap (λ (m : PollId → Option Poll). m id) a.3 ∙ h) g human)

-- The check of the deposit changes nothing.
module _ {B : Type 0} (Q : B → Contract → Type 0) where
  check_deposit-keeps :
      (usage : Contract → ℕ) (env : Env) (start : ℕ) (b : B) (s : Contract)
      → Q b s
      → Ensures Q ((check_deposit usage env start >> pure b) s)
  unfolding check_deposit
  check_deposit-keeps usage env start b s h =
      Ensures-assoc _ _ _ _ _
        (Ensures-gets _ _ _ _ (Ensures-require _ _ _ _ _ λ _. Ensures-pure _ _ _ _ h))

-- In a valid contract, a response that succeeds comes from a caller who has not answered the
-- poll, while the poll is active, and leaves a valid contract. If the poll is for humans it
-- leaves a callback and changes nothing; otherwise the caller is a participant afterwards and the
-- poll has one more (modulo 2 ^ 64).
pub respond-counts :
    (usage : Contract → ℕ) (env : Env) (id : PollId) (answers : List (Option Answer)) (s : Contract)
    → IsValid s
    → Ensures
        (λ pending t.
          IsValid t
          × (s.participants (id, env.predecessor) ≡ false)
          × ((p : Poll) × (s.polls id ≡ some p)
              × (p.starts_at ≤ env.now)
              × (env.now ≤ p.ends_at)
              × (p.iah_only ≡ is_some pending))
          × (pending ≡ none
              → (t.participants (id, env.predecessor) ≡ true)
                × OneMore (s.results id) (t.results id))
          × (is_some pending ≡ true → t ≡ s))
        (respond usage env id answers s)
unfolding respond assert_active assert_not_answered
respond-counts usage env id answers s v = Ensures-gets _ _ _ _ (
    Ensures-assoc _ _ _ _ _ (
      Ensures-gets _ _ _ _ (
        Ensures-assoc _ _ _ _ _ (
          Ensures-expect _ _ _ _ _ λ poll p. Ensures-require _ _ _ _ _ λ active.
            Ensures-assoc _ _ _ _ _ (
              Ensures-gets _ _ _ _ (
                Ensures-require _ _ _ _ _ λ new. Ensures-gets _ _ _ _ (
                  Ensures-expect _ _ _ _ _ λ again e. elim (Bool-cases again.iah_only) [
                    | inl iah ↦ rw iah (
                        Ensures-pure_bind _ _ _ _ (
                          check_deposit-keeps _ usage env (usage s) _ s (
                            v,
                            ground (arith, new),
                            (
                              again,
                              e,
                              ground (arith, p, e, active),
                              ground (arith, p, e, active),
                              iah,
                            ),
                            λ x. absurd (ground (arith, x)),
                            λ _. refl,
                          )))
                    | inr all ↦ rw all (
                        Ensures-assoc _ _ _ _ _ (
                          Ensures-bind _ _ _ _ _
                            (on_human_verifed-counts [] false env.predecessor id answers s v)
                            λ _ t c. Ensures-pure_bind _ _ _ _ (
                              check_deposit-keeps _ usage env (usage s) _ t (
                                c.0,
                                ground (arith, new),
                                (
                                  again,
                                  e,
                                  ground (arith, p, e, active),
                                  ground (arith, p, e, active),
                                  all,
                                ),
                                λ _. (c.1, c.2),
                                λ x. absurd (ground (arith, x)),
                              ))))
                  ])))))))
