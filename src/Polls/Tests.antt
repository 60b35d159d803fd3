-- ===== src/Polls/Tests.antt =====
-- Runs of EasyPoll on a small state, and the theorems at those runs.
use i_am_human.Base.{
  ◌≤◌, ◌≡◌, ◌≢◌, refl, true, false, Option, none, some, is_some, List, [], ◌∷◌, arith, ◌>>◌,
  Ensures, Returns,
}
use i_am_human.Near.{AccountId, Env}
use i_am_human.Near.Keys.{ℕ_key}
use i_am_human.Near.Lookup.{empty, insert}
use i_am_human.Polls.{
  PollId, Answer, yes_no, text_choices, yes_no_result, text_choices_result, Question, Poll,
  not_started, Contract,
}
use i_am_human.Polls.Vote.{new, create_poll, on_human_verifed, respond}
use i_am_human.Polls.Invariant.{IsValid, all_fit, poll_matches}
use i_am_human.Polls.Tallies.{TalliedIn}
use i_am_human.Polls.Validity.{
  OneMore, create_poll-IsValid, on_human_verifed-counts, on_human_verifed-Returns,
  on_human_verifed-twice, respond-counts,
}

abbrev ask : Answer → Question
ask a = record {
  question_type = a;
  required = true;
  title = [];
  description = none;
  image = none;
  labels = none;
  choices = none;
  max_choices = none;
}

-- Two questions: yes or no, and two choices.
abbrev two_questions : List Question
two_questions = ask (yes_no true) ∷ ask (text_choices (0 ∷ 0 ∷ [])) ∷ []

abbrev open_poll : Poll
open_poll = record {
  iah_only = false;
  questions = two_questions;
  starts_at = 10;
  ends_at = 2000;
  title = [];
  tags = [];
  description = [];
  link = [];
  created_at = 5;
}

abbrev one_poll : Contract
one_poll = record (new 3) {
  polls = insert 1 open_poll empty;
  results =
      insert 1
        (record {
          status = not_started;
          participants_num = 0;
          results = yes_no_result 0 0 ∷ text_choices_result (0 ∷ 0 ∷ []) ∷ [];
        })
        empty;
  next_poll_id = 2;
}

one_poll-IsValid : IsValid one_poll
unfolding poll_matches new
one_poll-IsValid = record { matched = λ id. ground arith; unused = λ id l. ground arith }

abbrev call_by : AccountId → Env
call_by account = record {
  predecessor = account;
  now = 1000;
  attached_deposit = 1000000;
  storage_byte_cost = 1;
  prepaid_gas = 100000000000000;
  signer = account;
  current_account = 1;
}

abbrev answers : List (Option Answer)
answers = some (yes_no true) ∷ some (text_choices (1 ∷ [])) ∷ []

answers-fit : all_fit two_questions answers ≡ true
unfolding all_fit
answers-fit = refl

create_poll-IsValid_example :
    Ensures
      (λ id t.
        IsValid t
        × (one_poll.polls id ≡ none)
        × ((j : PollId)
            → j ≢ id
            → (t.polls j ≡ one_poll.polls j) × (t.results j ≡ one_poll.results j)))
      (create_poll (call_by 5) true two_questions 1500 2500 [] [] [] [] one_poll)
create_poll-IsValid_example =
    create_poll-IsValid (call_by 5) true two_questions 1500 2500 [] [] [] [] one_poll
      one_poll-IsValid (omega arith)

on_human_verifed-counts_example :
    Ensures
      (λ _ t.
        IsValid t
        × (t.participants (1, 5) ≡ true)
        × OneMore (one_poll.results 1) (t.results 1)
        × (t.polls ≡ one_poll.polls)
        × ((j : PollId) → j ≢ 1 → t.results j ≡ one_poll.results j))
      (on_human_verifed [] false 5 1 answers one_poll)
on_human_verifed-counts_example =
    on_human_verifed-counts [] false 5 1 answers one_poll one_poll-IsValid

on_human_verifed-Returns_example :
    Returns
      (λ _ t.
        IsValid t
        × (t.participants (1, 5) ≡ true)
        × OneMore (one_poll.results 1) (t.results 1)
        × (t.polls ≡ one_poll.polls)
        × ((j : PollId) → j ≢ 1 → t.results j ≡ one_poll.results j)
        × TalliedIn answers (one_poll.results 1) (t.results 1))
      (on_human_verifed [] false 5 1 answers one_poll)
on_human_verifed-Returns_example =
    on_human_verifed-Returns [] false 5 1 answers open_poll one_poll one_poll-IsValid refl
      answers-fit refl

on_human_verifed-twice_example :
    Returns
      (λ _ t.
        (u : Contract) × OneMore (one_poll.results 1) (u.results 1)
        × OneMore (u.results 1) (t.results 1))
      ((on_human_verifed [] false 5 1 answers >> on_human_verifed [] false 5 1 answers) one_poll)
on_human_verifed-twice_example =
    on_human_verifed-twice [] false 5 1 answers answers open_poll one_poll one_poll-IsValid refl
      answers-fit answers-fit refl

respond-counts_example :
    Ensures
      (λ pending t.
        IsValid t
        × (one_poll.participants (1, 5) ≡ false)
        × ((p : Poll) × (one_poll.polls 1 ≡ some p)
            × (p.starts_at ≤ 1000)
            × (1000 ≤ p.ends_at)
            × (p.iah_only ≡ is_some pending))
        × (pending ≡ none
            → (t.participants (1, 5) ≡ true) × OneMore (one_poll.results 1) (t.results 1))
        × (is_some pending ≡ true → t ≡ one_poll))
      (respond (λ _. 0) (call_by 5) 1 answers one_poll)
respond-counts_example = respond-counts (λ _. 0) (call_by 5) 1 answers one_poll one_poll-IsValid
