-- ===== src/Polls/Counting.antt =====
-- The loop over the answers in `on_human_verifed` (contracts/easy-poll/src/lib.rs).
use i_am_human.Base.{
  ℕ, zero, suc, ◌+◌, ◌<◌, ◌≡◌, refl, Bool, true, false, not, ◌||◌, Option, none, some, List, [],
  ◌∷◌, length, ltb, leb, if◌then◌else◌, arith, Ensures, Returns, Ensures-pure, Ensures-require, inl,
  inr, Option-cases, ◌∙◌, Returns-pure, Returns-expect, Returns-require, Returns-bind, Ensures-bind,
  Ensures-expect_last, Ensures-mono, Ensures-expect,
}
use i_am_human.Near.Words.{add_u32}
use i_am_human.Polls.{
  Text, Answer, yes_no, text_choices, picture_choices, opinion_range, text_answer, PollResult,
  yes_no_result, text_choices_result, picture_choices_result, opinion_range_result,
  text_answer_result, OpinionRangeResult, Question, Contract,
}
use i_am_human.Polls.Vote.{bump, bump_all, max_text_answer_len, count_answer, count_answers}
use i_am_human.Polls.Invariant.{matches, all_match, choices_below, allows, fits, all_fit}

-- A choice is counted exactly if it has a counter.
bump-length :
    (results : List ℕ) (c : ℕ) (r : List ℕ) → bump results c ≡ some r → length r ≡ length results
unfolding bump
bump-length [] c r h = ground arith
bump-length (n ∷ results) zero r h = ground arith
bump-length (n ∷ results) (suc c) r h = elim (Option-cases (bump results c)) [
  | inl e ↦ ground arith
  | inr (x, e) ↦ ground (arith, bump-length results c x e)
]

bump-some :
    (results : List ℕ) (c : ℕ)
    → c < length results
    → (r : List ℕ) × (bump results c ≡ some r) × (length r ≡ length results)
unfolding bump
bump-some [] c h = absurd (omega arith)
bump-some (n ∷ results) zero h = (_, refl, refl)
bump-some (n ∷ results) (suc c) h =
    let (r, e, l) = bump-some results c (omega arith) in (n ∷ r, rw e, omega arith)

bump_all-length :
    (choices results : List ℕ) (s : Contract)
    → Ensures (λ r t. (length r ≡ length results) × (t ≡ s)) (bump_all choices results s)
unfolding bump_all
bump_all-length [] results s = Ensures-pure _ _ _ _ (refl, refl)
bump_all-length (c ∷ choices) results s = Ensures-expect _ _ _ _ _ λ r e.
    Ensures-mono _ _ _ (λ q t p. (p.0 ∙ bump-length results c r e, p.1))
      (bump_all-length choices r s)

bump_all-Returns :
    (choices results : List ℕ) (s : Contract)
    → choices_below (length results) choices ≡ true
    → Returns (λ r t. t ≡ s) (bump_all choices results s)
unfolding bump_all choices_below
bump_all-Returns [] results s h = Returns-pure _ _ _ _ refl
bump_all-Returns (c ∷ choices) results s h =
    let (r, e, l) = bump-some results c (ground arith) in
    Returns-expect _ _ _ _ _ r e (bump_all-Returns choices r s (rw l (ground arith)))

-- Whether a result matches depends on its kind and on the number of its counters.
matches-yes_no :
    (a : Answer) (y n z m : ℕ) → matches a (yes_no_result y n) ≡ matches a (yes_no_result z m)
unfolding matches
matches-yes_no (yes_no _) y n z m = refl
matches-yes_no _ y n z m = refl

matches-text :
    (a : Answer) (r t : List ℕ)
    → length r ≡ length t
    → matches a (text_choices_result r) ≡ matches a (text_choices_result t)
unfolding matches
matches-text (text_choices c) r t e = rw e
matches-text _ r t e = refl

matches-picture :
    (a : Answer) (r t : List ℕ)
    → length r ≡ length t
    → matches a (picture_choices_result r) ≡ matches a (picture_choices_result t)
unfolding matches
matches-picture (picture_choices c) [] [] e = refl
matches-picture (picture_choices c) [] (x ∷ t) e = absurd (omega (arith, e))
matches-picture (picture_choices c) (x ∷ r) [] e = absurd (omega (arith, e))
matches-picture (picture_choices c) (x ∷ r) (y ∷ t) e = refl
matches-picture _ r t e = refl

matches-opinion :
    (a : Answer) (r t : OpinionRangeResult)
    → matches a (opinion_range_result r) ≡ matches a (opinion_range_result t)
unfolding matches
matches-opinion (opinion_range _) r t = refl
matches-opinion _ r t = refl

count_answer-matches :
    (i : ℕ) (q : Question) (a : Option Answer) (r : PollResult) (s : Contract)
    → matches q.question_type r ≡ true
    → Ensures (λ c t. (matches q.question_type c ≡ true) × (t ≡ s)) (count_answer i q a r s)
unfolding count_answer matches
count_answer-matches i q none r s h = Ensures-require _ _ _ _ _ λ _. Ensures-pure _ _ _ _ (h, refl)
count_answer-matches i q (some (yes_no b)) (yes_no_result y n) s h =
    Ensures-pure _ _ _ _ (counted b, refl)
  where
    counted :
        (d : Bool)
        → matches q.question_type
            (if d then yes_no_result (add_u32 y 1) n else yes_no_result y (add_u32 n 1))
          ≡ true
    counted true = matches-yes_no q.question_type _ _ y n ∙ h
    counted false = matches-yes_no q.question_type _ _ y n ∙ h
count_answer-matches i q (some (text_choices c)) (text_choices_result r) s h =
    Ensures-bind _ _ _ _ _ (bump_all-length c r s)
      λ d t p. Ensures-pure _ _ _ _ (matches-text q.question_type d r p.0 ∙ h, p.1)
count_answer-matches i q (some (picture_choices c)) (picture_choices_result r) s h =
    Ensures-bind _ _ _ _ _ (bump_all-length c r s)
      λ d t p. Ensures-pure _ _ _ _ (matches-picture q.question_type d r p.0 ∙ h, p.1)
count_answer-matches i q (some (opinion_range o)) (opinion_range_result r) s h =
    Ensures-require _ _ _ _ _
      λ _. Ensures-pure _ _ _ _ (matches-opinion q.question_type _ r ∙ h, refl)
count_answer-matches i q (some (text_answer c)) text_answer_result s h =
    Ensures-require _ _ _ _ _ λ _. Ensures-pure _ _ _ _ (h, refl)
count_answer-matches i q (some a) r s h =
    Ensures-expect_last _ _ _ _ λ _ e. absurd (ground (arith, e))

pub count_answers-match :
    (i : ℕ) (questions : List Question) (answers : List (Option Answer)) (results : List PollResult)
    (s : Contract)
    → all_match questions results ≡ true
    → Ensures
        (λ c t. (all_match questions c ≡ true) × (t ≡ s))
        (count_answers i questions answers results s)
unfolding count_answers all_match
count_answers-match i [] answers results s h = Ensures-pure _ _ _ _ (h, refl)
count_answers-match i (q ∷ questions) [] results s h =
    Ensures-expect_last _ _ _ _ λ _ e. absurd (ground (arith, e))
count_answers-match i (q ∷ questions) (a ∷ answers) [] s h =
    Ensures-expect_last _ _ _ _ λ _ e. absurd (ground (arith, e))
count_answers-match i (q ∷ questions) (a ∷ answers) (r ∷ results) s h =
    Ensures-bind _ _ _ _ _ (count_answer-matches i q a r s (ground arith)) λ c t p.
      Ensures-bind _ _ _ _ _
        (count_answers-match (i + 1) questions answers results t (ground arith))
        λ rest u k. Ensures-pure _ _ _ _ (ground (arith, p.0, k.0), k.1 ∙ p.1)

-- The kinds of answers and of results.
abbrev answer_kind : Answer → ℕ
answer_kind (yes_no _) = 0
answer_kind (text_choices _) = 1
answer_kind (picture_choices _) = 2
answer_kind (opinion_range _) = 3
answer_kind (text_answer _) = 4

abbrev result_kind : PollResult → ℕ
result_kind (yes_no_result _ _) = 0
result_kind (text_choices_result _) = 1
result_kind (picture_choices_result _) = 2
result_kind (opinion_range_result _) = 3
result_kind text_answer_result = 4

matches-kind : (a : Answer) (r : PollResult) → matches a r ≡ true → answer_kind a ≡ result_kind r
unfolding matches
matches-kind (yes_no _) (yes_no_result _ _) h = refl
matches-kind (text_choices _) (text_choices_result _) h = refl
matches-kind (picture_choices _) (picture_choices_result _) h = refl
matches-kind (opinion_range _) (opinion_range_result _) h = refl
matches-kind (text_answer _) text_answer_result h = refl
matches-kind _ _ h = absurd (ground (arith, h))

allows-kind : (a b : Answer) → allows a b ≡ true → answer_kind a ≡ answer_kind b
unfolding allows
allows-kind (yes_no _) (yes_no _) h = refl
allows-kind (text_choices _) (text_choices _) h = refl
allows-kind (picture_choices _) (picture_choices _) h = refl
allows-kind (opinion_range _) (opinion_range _) h = refl
allows-kind (text_answer _) (text_answer _) h = refl
allows-kind _ _ h = absurd (ground (arith, h))

-- The choices that a question allows have counters.
allows-text :
    (a : Answer) (b r : List ℕ)
    → allows a (text_choices b) ≡ true
    → matches a (text_choices_result r) ≡ true
    → choices_below (length r) b ≡ true
unfolding allows matches
allows-text (text_choices c) b r f h = ground (arith, f, h)
allows-text _ b r f h = absurd (ground (arith, f))

allows-picture :
    (a : Answer) (b n : List ℕ)
    → allows a (picture_choices b) ≡ true
    → choices_below (length n) b ≡ true
unfolding allows choices_below
allows-picture (picture_choices c) [] n f = refl
allows-picture (picture_choices c) (x ∷ b) n f = absurd (ground (arith, f))
allows-picture _ b n f = absurd (ground (arith, f))

allows-opinion :
    (a : Answer) (o : ℕ) → allows a (opinion_range o) ≡ true → not (ltb o 1 || ltb 10 o) ≡ true
unfolding allows
allows-opinion (opinion_range c) o f = f
allows-opinion _ o f = absurd (ground (arith, f))

allows-answer :
    (a : Answer) (t : Text)
    → allows a (text_answer t) ≡ true
    → leb (length t) max_text_answer_len ≡ true
unfolding allows
allows-answer (text_answer c) t f = f
allows-answer _ t f = absurd (ground (arith, f))

-- An answer that fits is counted.
count_answer-Returns :
    (i : ℕ) (q : Question) (a : Option Answer) (r : PollResult) (s : Contract)
    → matches q.question_type r ≡ true
    → fits q a ≡ true
    → Returns (λ _ t. t ≡ s) (count_answer i q a r s)
unfolding count_answer fits
count_answer-Returns i q none r s h f = Returns-require _ _ _ _ _ f (Returns-pure _ _ _ _ refl)
count_answer-Returns i q (some (yes_no b)) (yes_no_result y n) s h f = Returns-pure _ _ _ _ refl
count_answer-Returns i q (some (text_choices b)) (text_choices_result r) s h f =
    Returns-bind _ _ _ _ _ (bump_all-Returns b r s (allows-text q.question_type b r f h))
      λ _ t p. Returns-pure _ _ _ _ p
count_answer-Returns i q (some (picture_choices b)) (picture_choices_result r) s h f =
    Returns-bind _ _ _ _ _ (bump_all-Returns b r s (allows-picture q.question_type b r f))
      λ _ t p. Returns-pure _ _ _ _ p
count_answer-Returns i q (some (opinion_range b)) (opinion_range_result r) s h f =
    Returns-require _ _ _ _ _ (allows-opinion q.question_type b f) (Returns-pure _ _ _ _ refl)
count_answer-Returns i q (some (text_answer b)) text_answer_result s h f =
    Returns-require _ _ _ _ _ (allows-answer q.question_type b f) (Returns-pure _ _ _ _ refl)
count_answer-Returns i q (some a) r s h f =
    absurd (ground (arith, matches-kind q.question_type r h, allows-kind q.question_type a f))

pub count_answers-Returns :
    (i : ℕ) (questions : List Question) (answers : List (Option Answer)) (results : List PollResult)
    (s : Contract)
    → all_match questions results ≡ true
    → all_fit questions answers ≡ true
    → Returns (λ _ t. t ≡ s) (count_answers i questions answers results s)
unfolding count_answers all_match all_fit
count_answers-Returns i [] answers results s h f = Returns-pure _ _ _ _ refl
count_answers-Returns i (q ∷ questions) [] results s h f = absurd (ground (arith, f))
count_answers-Returns i (q ∷ questions) (a ∷ answers) [] s h f = absurd (ground (arith, h))
count_answers-Returns i (q ∷ questions) (a ∷ answers) (r ∷ results) s h f =
    Returns-bind _ _ _ _ _ (count_answer-Returns i q a r s (ground arith) (ground arith)) λ c t p.
      Returns-bind _ _ _ _ _
        (count_answers-Returns (i + 1) questions answers results t (ground arith) (ground arith))
        λ rest u k. Returns-pure _ _ _ _ (k ∙ p)
