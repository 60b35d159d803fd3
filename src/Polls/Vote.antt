-- ===== src/Polls/Vote.antt =====
-- The operations of EasyPoll (contracts/easy-poll/src/lib.rs).
use i_am_human.Base.{
  ℕ, zero, suc, ◌+◌, ◌*◌, ◌%◌, ◌^◌, Bool, false, not, ◌||◌, ◌&&◌, Option, none, some, List, [], ◌∷◌,
  ◌++◌, map, length, is_empty, ltb, leb, if◌then◌else◌, ◌==◌, ◌>>=◌, ◌>>◌, pure, gets, modify,
  require, expect,
}
use i_am_human.Near.{AccountId, Env}
use i_am_human.Near.Words.{add_u64, add_u32, sub_u64}
use i_am_human.Near.Keys.{ℕ_key, pair_key}
use i_am_human.Near.Lookup.{empty, empty_set, insert, add}
use i_am_human.Sbt.{Sbts}
use i_am_human.Polls.{
  PollId, Text, Answer, yes_no, text_choices, picture_choices, opinion_range, text_answer,
  PollResult, yes_no_result, text_choices_result, picture_choices_result, opinion_range_result,
  text_answer_result, Question, not_started, required_answer, not_iah, not_found, not_active,
  opinion_range_error, wrong_answer, incorrect_answer_vector, alredy_answered, answer_too_long,
  insufficient_deposit, starts_in_past, index_panic, create_poll_event, respond_event, Contract,
  Call,
}

-- `MAX_TEXT_ANSWER_LEN`
abbrev pub max_text_answer_len : ℕ
max_text_answer_len = 500

unfoldable pub new : AccountId → Contract
new sbt_registry = record {
  polls = empty;
  results = empty;
  participants = empty_set;
  sbt_registry = sbt_registry;
  next_poll_id = 1;
  events = [];
}

-- The arm of `initialize_results` for one question.
abbrev pub initial_result : Answer → PollResult
initial_result (yes_no _) = yes_no_result 0 0
initial_result (text_choices choices) = text_choices_result (map (λ _. 0) choices)
initial_result (picture_choices _) = picture_choices_result []
initial_result (opinion_range _) = opinion_range_result (record { sum = 0; num = 0 })
initial_result (text_answer _) = text_answer_result

unfoldable pub initialize_results : PollId → List Question → Call (Unit {0})
initialize_results poll_id questions = modify (λ s. record s {
  results =
      insert poll_id
        (record {
          status = not_started;
          participants_num = 0;
          results = map (λ q. initial_result q.question_type) questions;
        })
        s.results;
})

-- The caller gives the poll but for its time of creation.
unfoldable pub create_poll :
    Env → Bool → List Question → ℕ → ℕ → Text → List Text → Text → Text → Call PollId
unfolding initialize_results
create_poll env iah_only questions starts_at ends_at title tags description link = do
  require starts_in_past (ltb env.now starts_at)
  poll_id ← gets (λ s. s.next_poll_id)
  modify (λ s. record s { next_poll_id = add_u64 s.next_poll_id 1 })
  initialize_results poll_id questions
  modify (λ s. record s {
    polls =
        insert poll_id
          (record {
            iah_only = iah_only;
            questions = questions;
            starts_at = starts_at;
            ends_at = ends_at;
            title = title;
            tags = tags;
            description = description;
            link = link;
            created_at = env.now;
          })
          s.polls;
    events = s.events ++ create_poll_event poll_id ∷ [];
  })
  pure poll_id

unfoldable pub assert_active : Env → PollId → Call (Unit {0})
assert_active env poll_id = do
  o ← gets (λ s. s.polls poll_id)
  poll ← expect not_found o
  require not_active (not (ltb env.now poll.starts_at || ltb poll.ends_at env.now))

unfoldable pub assert_not_answered : PollId → AccountId → Call (Unit {0})
assert_not_answered poll_id caller = do
  answered ← gets (λ s. s.participants (poll_id, caller))
  require alredy_answered (not answered)

-- `results[choice] += 1`
unfoldable pub bump : List ℕ → ℕ → Option (List ℕ)
bump [] choice = none
bump (n ∷ results) zero = some (add_u32 n 1 ∷ results)
bump (n ∷ results) (suc choice) =
    let rest = bump results choice in elim rest [ none ↦ none | some r ↦ some (n ∷ r) ]

unfoldable pub bump_all : List ℕ → List ℕ → Call (List ℕ)
unfolding bump
bump_all [] results = pure results
bump_all (choice ∷ choices) results = do
  r ← expect index_panic (bump results choice)
  bump_all choices r

-- The body of the loop over the questions, with the answer, for the question `i`.
unfoldable pub count_answer : ℕ → Question → Option Answer → PollResult → Call PollResult
unfolding bump_all
count_answer i q (some (yes_no response)) (yes_no_result yes_count no_count) = pure (
    if response
    then yes_no_result (add_u32 yes_count 1) no_count
    else yes_no_result yes_count (add_u32 no_count 1))
count_answer i q (some (text_choices choices)) (text_choices_result results) = do
  r ← bump_all choices results
  pure (text_choices_result r)
count_answer i q (some (picture_choices choices)) (picture_choices_result results) = do
  r ← bump_all choices results
  pure (picture_choices_result r)
count_answer i q (some (opinion_range opinion)) (opinion_range_result results) = do
  require opinion_range_error (not (ltb opinion 1 || ltb 10 opinion))
  pure (
      opinion_range_result
        (record { sum = add_u64 results.sum opinion; num = add_u64 results.num 1 }))
count_answer i q (some (text_answer answer)) text_answer_result = do
  require (answer_too_long (length answer)) (leb (length answer) max_text_answer_len)
  pure text_answer_result
count_answer i q none result = do require (required_answer i) (not q.required); pure result
count_answer i q (some _) result = expect wrong_answer none

-- The loop, from the question `i` on; as many answers as questions are given.
unfoldable pub count_answers :
    ℕ → List Question → List (Option Answer) → List PollResult → Call (List PollResult)
unfolding count_answer
count_answers i [] answers results = pure results
count_answers i (q ∷ questions) [] results = expect index_panic none
count_answers i (q ∷ questions) (a ∷ answers) [] = expect index_panic none
count_answers i (q ∷ questions) (a ∷ answers) (r ∷ results) = do
  counted ← count_answer i q a r
  rest ← count_answers (i + 1) questions answers results
  pure (counted ∷ rest)

-- The callback; `tokens` are the proof that the registry returned.
unfoldable pub on_human_verifed :
    Sbts → Bool → AccountId → PollId → List (Option Answer) → Call (Unit {0})
unfolding count_answers
on_human_verifed tokens iah_only caller poll_id answers = do
  require not_iah (not (iah_only && is_empty tokens))
  p ← gets (λ s. s.polls poll_id)
  poll ← expect not_found p
  o ← gets (λ s. s.results poll_id)
  poll_results ← expect not_found o
  require incorrect_answer_vector (length poll.questions == length answers)
  counted ← count_answers 0 poll.questions answers poll_results.results
  modify (λ s. record s {
    participants = add (poll_id, caller) s.participants;
    results =
        insert poll_id
          (record poll_results {
            participants_num = add_u64 poll_results.participants_num 1;
            results = counted;
          })
          s.results;
    events = s.events ++ respond_event poll_id caller ∷ [];
  })

-- The callback that `respond` leaves for the registry's answer: its arguments.
pub record Pending : Type 0 where
  pub caller : AccountId
  pub poll_id : PollId
  pub answers : List (Option Answer)

-- `usage` is the host's `env::storage_usage()`.
module _ (usage : Contract → ℕ) where
  unfoldable pub check_deposit : Env → ℕ → Call (Unit {0})
  check_deposit env storage_start = do
    required ← gets (λ s. sub_u64 (usage s) storage_start * env.storage_byte_cost % 2 ^ 128)
    require (insufficient_deposit required) (leb required env.attached_deposit)

  -- The promise to the registry, if one is made.
  unfoldable pub respond : Env → PollId → List (Option Answer) → Call (Option Pending)
  unfolding assert_active assert_not_answered on_human_verifed check_deposit
  respond env poll_id answers = do
    storage_start ← gets usage
    assert_active env poll_id
    assert_not_answered poll_id env.predecessor
    o ← gets (λ s. s.polls poll_id)
    poll ← expect not_found o
    pending ←
        (if poll.iah_only
          then pure
              (some (record { caller = env.predecessor; poll_id = poll_id; answers = answers }))
          else (do on_human_verifed [] false env.predecessor poll_id answers; pure none))
    check_deposit env storage_start
    pure pending
