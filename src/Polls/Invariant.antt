-- ===== src/Polls/Invariant.antt =====
-- What EasyPoll's polls and results say of one another (contracts/easy-poll/src/lib.rs).
use i_am_human.Base.{
  ℕ, ◌≤◌, ◌≡◌, refl, Bool, true, false, not, ◌&&◌, ◌||◌, Option, none, some, is_some, List, [], ◌∷◌,
  map, length, ltb, leb, arith, ◌==◌, is_empty,
}
use i_am_human.Near.Keys.{ℕ_key}
use i_am_human.Polls.{
  PollId, Answer, yes_no, text_choices, picture_choices, opinion_range, text_answer, PollResult,
  yes_no_result, text_choices_result, picture_choices_result, opinion_range_result,
  text_answer_result, Question, Poll, Results, Contract,
}
use i_am_human.Polls.Vote.{initial_result, max_text_answer_len}

-- A result is of the kind of its question, and has a counter for each of its choices; a picture
-- question has none.
unfoldable pub matches : Answer → PollResult → Bool
matches (yes_no _) (yes_no_result _ _) = true
matches (text_choices c) (text_choices_result r) = length c == length r
matches (picture_choices _) (picture_choices_result r) = is_empty r
matches (opinion_range _) (opinion_range_result _) = true
matches (text_answer _) text_answer_result = true
matches _ _ = false

unfoldable pub all_match : List Question → List PollResult → Bool
unfolding matches
all_match [] [] = true
all_match (q ∷ questions) (r ∷ results) =
    let rest = all_match questions results in matches q.question_type r && rest
all_match _ _ = false

-- All choices are below the number of counters.
unfoldable pub choices_below : ℕ → List ℕ → Bool
choices_below n [] = true
choices_below n (c ∷ choices) = let rest = choices_below n choices in ltb c n && rest

-- An answer that a question of the first kind can count.
unfoldable pub allows : Answer → Answer → Bool
unfolding choices_below
allows (yes_no _) (yes_no _) = true
allows (text_choices c) (text_choices a) = choices_below (length c) a
allows (picture_choices _) (picture_choices a) = is_empty a
allows (opinion_range _) (opinion_range o) = not (ltb o 1 || ltb 10 o)
allows (text_answer _) (text_answer t) = leb (length t) max_text_answer_len
allows _ _ = false

unfoldable pub fits : Question → Option Answer → Bool
unfolding allows
fits q none = not q.required
fits q (some a) = allows q.question_type a

unfoldable pub all_fit : List Question → List (Option Answer) → Bool
unfolding fits
all_fit [] [] = true
all_fit (q ∷ questions) (a ∷ answers) = let rest = all_fit questions answers in fits q a && rest
all_fit _ _ = false

-- A poll's results, as far as the poll decides them.
unfoldable pub poll_matches : Option Poll → Option Results → Bool
unfolding all_match
poll_matches none none = true
poll_matches (some p) (some r) = all_match p.questions r.results
poll_matches _ _ = false

-- Every poll has results of its shape, and nothing stands at a number that is still to be given.
pub record IsValid (s : Contract) : Type 0 where
  pub matched : (id : PollId) → poll_matches (s.polls id) (s.results id) ≡ true
  pub unused : (id : PollId) → s.next_poll_id ≤ id → is_some (s.polls id) ≡ false

pub all_match-initial :
    (questions : List Question)
    → all_match questions (map (λ q. initial_result q.question_type) questions) ≡ true
unfolding all_match
all_match-initial [] = refl
all_match-initial (q ∷ questions) = ground (arith, one q.question_type, all_match-initial questions)
  where
    same : (c : List ℕ) → (length c == length (map {B = ℕ} (λ _. 0) c)) ≡ true
    same [] = refl
    same (x ∷ c) = ground (arith, same c)

    one : (a : Answer) → matches a (initial_result a) ≡ true
    one (yes_no _) = refl
    one (text_choices c) = same c
    one (picture_choices _) = refl
    one (opinion_range _) = refl
    one (text_answer _) = refl
