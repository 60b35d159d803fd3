-- ===== src/Polls/Tallies.antt =====
-- What the loop over the answers in `on_human_verifed` counts (contracts/easy-poll/src/lib.rs).
use i_am_human.Base.{
  ℕ, zero, suc, ◌+◌, ◌%◌, ◌≡◌, refl, ◌∙◌, Bool, true, false, Option, none, some, List, [], ◌∷◌,
  length, get_elem?, if◌then◌else◌, ◌==◌, arith, inl, inr, Option-cases, Ensures, Ensures-pure,
  Ensures-require, Ensures-bind, Ensures-expect, Ensures-expect_last, Ensures-mono,
}
use i_am_human.Near.Words.{add_u32, add_u64, u32_mod}
use i_am_human.Polls.{
  Answer, yes_no, text_choices, picture_choices, opinion_range, text_answer, PollResult,
  yes_no_result, text_choices_result, picture_choices_result, opinion_range_result,
  text_answer_result, Question, Results, Contract,
}
use i_am_human.Polls.Vote.{bump, bump_all, count_answer, count_answers}
use i_am_human.Polls.Invariant.{all_match, all_fit}

-- How often a choice is in a list.
abbrev pub occurrences : ℕ → List ℕ → ℕ
occurrences i [] = 0
occurrences i (c ∷ choices) = (if i == c then 1 else 0) + occurrences i choices

-- Every counter has gone up by the number of times that its choice was made, modulo 2 ^ 32.
abbrev pub Chosen : List ℕ → List ℕ → List ℕ → Type 0
Chosen choices before after =
    (length after ≡ length before)
    × ((i n : ℕ)
        → get_elem? before i ≡ some n
        → (m : ℕ) × (get_elem? after i ≡ some m)
          × (m % u32_mod ≡ (n + occurrences i choices) % u32_mod))

-- One question's result before and after an answer.
abbrev pub Tallied : Option Answer → PollResult → PollResult → Type 0
Tallied none before after = after ≡ before
Tallied (some (yes_no true)) (yes_no_result y n) after = after ≡ yes_no_result (add_u32 y 1) n
Tallied (some (yes_no false)) (yes_no_result y n) after = after ≡ yes_no_result y (add_u32 n 1)
Tallied (some (text_choices choices)) (text_choices_result before) (text_choices_result after) =
    Chosen choices before after
Tallied (some (picture_choices choices)) (picture_choices_result before)
      (picture_choices_result after) =
    Chosen choices before after
Tallied (some (opinion_range o)) (opinion_range_result before) after =
    after ≡ opinion_range_result (record { sum = add_u64 before.sum o; num = add_u64 before.num 1 })
Tallied (some (text_answer _)) text_answer_result after = after ≡ text_answer_result
Tallied _ _ _ = ⊥

-- All results, question by question.
abbrev pub AllTallied : List (Option Answer) → List PollResult → List PollResult → Type 0
AllTallied [] [] [] = Unit
AllTallied (a ∷ answers) (r ∷ before) (q ∷ after) = Tallied a r q × AllTallied answers before after
AllTallied _ _ _ = ⊥

bump-counts :
    (results : List ℕ) (c : ℕ) (r : List ℕ)
    → bump results c ≡ some r
    → (i n : ℕ) → get_elem? results i ≡ some n
    → get_elem? r i ≡ some (if i == c then add_u32 n 1 else n)
unfolding bump
bump-counts [] c r h i n e = absurd (ground (arith, h))
bump-counts (x ∷ results) zero r h zero n e = ground (arith, h, e)
bump-counts (x ∷ results) zero r h (suc i) n e = ground (arith, h, e)
bump-counts (x ∷ results) (suc c) r h zero n e = elim (Option-cases (bump results c)) [
  | inl f ↦ absurd (ground (arith, h, f))
  | inr (t, f) ↦ ground (arith, h, f, e)
]
bump-counts (x ∷ results) (suc c) r h (suc i) n e = elim (Option-cases (bump results c)) [
  | inl f ↦ absurd (ground (arith, h, f))
  | inr (t, f) ↦ ground (arith, h, f, bump-counts results c t f i n e)
]

bump-length :
    (results : List ℕ) (c : ℕ) (r : List ℕ) → bump results c ≡ some r → length r ≡ length results
unfolding bump
bump-length [] c r h = ground arith
bump-length (n ∷ results) zero r h = ground arith
bump-length (n ∷ results) (suc c) r h = elim (Option-cases (bump results c)) [
  | inl e ↦ ground arith
  | inr (x, e) ↦ ground (arith, bump-length results c x e)
]

bump_all-Chosen :
    (choices results : List ℕ) (s : Contract)
    → Ensures (λ r t. Chosen choices results r × (t ≡ s)) (bump_all choices results s)
unfolding bump_all
bump_all-Chosen [] results s = Ensures-pure _ _ _ _ ((refl, λ i n e. (n, e, omega arith)), refl)
bump_all-Chosen (c ∷ choices) results s = Ensures-expect _ _ _ _ _ λ r e.
    Ensures-mono _ _ _
      (λ q t p. (
        (
          p.0.0 ∙ bump-length results c r e,
          λ i n f.
              let g = p.0.1 i _ (bump-counts results c r e i n f) in
              (g.0, g.1, g.2 ∙ counted (i == c) n (occurrences i choices)),
        ),
        p.1,
      ))
      (bump_all-Chosen choices r s)
  where
    counted :
        (b : Bool) (n o : ℕ)
        → ((if b then add_u32 n 1 else n) + o) % u32_mod
          ≡ (n + ((if b then 1 else 0) + o)) % u32_mod
    counted true n o = omega arith
    counted false n o = omega arith

count_answer-Tallied :
    (i : ℕ) (q : Question) (a : Option Answer) (r : PollResult) (s : Contract)
    → Ensures (λ c t. Tallied a r c × (t ≡ s)) (count_answer i q a r s)
unfolding count_answer
count_answer-Tallied i q none r s = Ensures-require _ _ _ _ _ λ _. Ensures-pure _ _ _ _ (refl, refl)
count_answer-Tallied i q (some (yes_no true)) (yes_no_result y n) s =
    Ensures-pure _ _ _ _ (refl, refl)
count_answer-Tallied i q (some (yes_no false)) (yes_no_result y n) s =
    Ensures-pure _ _ _ _ (refl, refl)
count_answer-Tallied i q (some (text_choices c)) (text_choices_result r) s =
    Ensures-bind _ _ _ _ _ (bump_all-Chosen c r s) λ d t p. Ensures-pure _ _ _ _ p
count_answer-Tallied i q (some (picture_choices c)) (picture_choices_result r) s =
    Ensures-bind _ _ _ _ _ (bump_all-Chosen c r s) λ d t p. Ensures-pure _ _ _ _ p
count_answer-Tallied i q (some (opinion_range o)) (opinion_range_result r) s =
    Ensures-require _ _ _ _ _ λ _. Ensures-pure _ _ _ _ (refl, refl)
count_answer-Tallied i q (some (text_answer c)) text_answer_result s =
    Ensures-require _ _ _ _ _ λ _. Ensures-pure _ _ _ _ (refl, refl)
count_answer-Tallied i q (some a) r s =
    Ensures-expect_last _ _ _ _ λ _ e. absurd (ground (arith, e))

pub count_answers-AllTallied :
    (i : ℕ) (questions : List Question) (answers : List (Option Answer)) (results : List PollResult)
    (s : Contract)
    → all_match questions results ≡ true
    → all_fit questions answers ≡ true
    → Ensures
        (λ c t. AllTallied answers results c × (t ≡ s))
        (count_answers i questions answers results s)
unfolding count_answers all_match all_fit
count_answers-AllTallied i [] [] [] s h f = Ensures-pure _ _ _ _ (tt, refl)
count_answers-AllTallied i [] (a ∷ answers) results s h f = absurd (ground (arith, f))
count_answers-AllTallied i [] [] (r ∷ results) s h f = absurd (ground (arith, h))
count_answers-AllTallied i (q ∷ questions) [] results s h f = absurd (ground (arith, f))
count_answers-AllTallied i (q ∷ questions) (a ∷ answers) [] s h f = absurd (ground (arith, h))
count_answers-AllTallied i (q ∷ questions) (a ∷ answers) (r ∷ results) s h f =
    Ensures-bind _ _ _ _ _ (count_answer-Tallied i q a r s) λ c t p.
      Ensures-bind _ _ _ _ _
        (count_answers-AllTallied (i + 1) questions answers results t (ground arith) (ground arith))
        λ rest u k. Ensures-pure _ _ _ _ ((p.0, k.0), k.1 ∙ p.1)

-- A poll's results before and after the answers are counted.
abbrev pub TalliedIn : List (Option Answer) → Option Results → Option Results → Type 0
TalliedIn answers (some before) (some after) = AllTallied answers before.results after.results
TalliedIn answers _ _ = ⊥
