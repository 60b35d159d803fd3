-- ===== src/Polls.antt =====
-- EasyPoll (contracts/easy-poll/src): the data of storage.rs, the errors of errors.rs and the
-- contract of lib.rs.
pub mod Vote
pub mod Invariant
pub mod Counting
pub mod Tallies
pub mod Validity
mod Tests
use i_am_human.Base.{ℕ, Bool, Option, List, Tx}
use i_am_human.Near.{AccountId}
use i_am_human.Near.Lookup.{LookupMap, LookupSet}

abbrev pub PollId : Type 0
PollId = ℕ

-- A string is its bytes in UTF-8: `len` counts them.
abbrev pub Text : Type 0
Text = List ℕ

pub data Answer : Type 0 where
  yes_no : Bool → Answer
  text_choices picture_choices : List ℕ → Answer
  opinion_range : ℕ → Answer
  text_answer : Text → Answer

pub record OpinionRangeResult : Type 0 where
  pub sum : ℕ
  pub num : ℕ

-- The constructors of `PollResult` have the suffix of their own here.
pub data PollResult : Type 0 where
  yes_no_result : ℕ → ℕ → PollResult
  text_choices_result picture_choices_result : List ℕ → PollResult
  opinion_range_result : OpinionRangeResult → PollResult
  text_answer_result : PollResult

pub record Question : Type 0 where
  pub question_type : Answer
  pub required : Bool
  pub title : Text
  pub description : Option Text
  pub image : Option Text
  pub labels : Option (Text × Text × Text)
  pub choices : Option (List Text)
  pub max_choices : Option ℕ

pub record Poll : Type 0 where
  pub iah_only : Bool
  pub questions : List Question
  pub starts_at : ℕ
  pub ends_at : ℕ
  pub title : Text
  pub tags : List Text
  pub description : Text
  pub link : Text
  pub created_at : ℕ

pub data Status : Type 0 where
  not_started active finished : Status

pub record Results : Type 0 where
  pub status : Status
  pub participants_num : ℕ
  pub results : List PollResult

-- The errors; the last two are the panics of `create_poll` and of an index out of bounds.
pub data PollError : Type 0 where
  required_answer : ℕ → PollError
  not_iah not_found not_active opinion_range_error wrong_answer : PollError
  incorrect_answer_vector alredy_answered : PollError
  answer_too_long insufficient_deposit : ℕ → PollError
  starts_in_past index_panic : PollError

pub data PollEvent : Type 0 where
  create_poll_event : PollId → PollEvent
  respond_event : PollId → AccountId → PollEvent

-- `struct Contract`, and the events of the transaction.
pub record Contract : Type 0 where
  pub polls : LookupMap PollId Poll
  pub results : LookupMap PollId Results
  pub participants : LookupSet (PollId × AccountId)
  pub sbt_registry : AccountId
  pub next_poll_id : PollId
  pub events : List PollEvent

abbrev pub Call : Type 0 → Type 0
Call A = Tx PollError Contract A
