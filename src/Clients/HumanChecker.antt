-- ===== src/Clients/HumanChecker.antt =====
-- The human checker (contracts/human_checker/src/lib.rs), which the registry calls for a human.
pub mod Voting
use i_am_human.Base.{
  ℕ, ◌+◌, Bool, true, false, not, ◌&&◌, ◌||◌, List, [], ◌∷◌, Option, none, some, String, is_empty,
  is_some, leb, ltb, if◌then◌else◌, Tx, ◌>>=◌, ◌>>◌, pure, gets, modify, require, ◌==◌ as nat_eq,
}
use i_am_human.Near.{AccountId, Env}
use i_am_human.Near.Words.{add_u64}
use i_am_human.Near.Keys.{ℕ_key, list_eq}
use i_am_human.Near.Text.{Chars}
use i_am_human.Near.Lookup.{LookupMap, empty, insert}
use i_am_human.Sbt.{TokenId, Sbts}

-- `VOTING_DURATION`
abbrev pub voting_duration : ℕ
voting_duration = 20000

-- The panics.
pub data CheckerError : Type 0 where
  not_registry wrong_payload not_a_human empty_token_list : CheckerError
  not_locked invalid_proposal invalid_vote : CheckerError

pub record Contract : Type 0 where
  pub used_tokens : LookupMap AccountId Sbts
  pub registry : AccountId

abbrev pub Call : Type 0 → Type 0
Call A = Tx CheckerError Contract A

unfoldable pub new : AccountId → Contract
new registry = record { used_tokens = empty; registry = registry }

pub record RegisterHumanPayload : Type 0 where
  pub memo : String
  pub numbers : List ℕ

-- "approve"
abbrev pub approve : Chars
approve = 97 ∷ 112 ∷ 112 ∷ 114 ∷ 111 ∷ 118 ∷ 101 ∷ []

-- "reject"
abbrev pub reject : Chars
reject = 114 ∷ 101 ∷ 106 ∷ 101 ∷ 99 ∷ 116 ∷ []

pub record VotePayload : Type 0 where
  pub prop_id : ℕ
  pub vote : Chars

abbrev pub expected_vec_payload : List ℕ
expected_vec_payload = 2 ∷ 3 ∷ 5 ∷ 7 ∷ 11 ∷ []

-- The loop over the proof: no list of tokens is empty.
abbrev pub no_empty_list : Sbts → Bool
no_empty_list [] = true
no_empty_list ((_, tokens) ∷ rest) = not (is_empty tokens) && no_empty_list rest

unfoldable pub register_human_token : Env → AccountId → Sbts → RegisterHumanPayload → Call Bool
register_human_token env caller iah_proof payload = do
  registry ← gets (λ s. s.registry)
  require not_registry (nat_eq env.predecessor registry)
  require wrong_payload (list_eq payload.numbers expected_vec_payload)
  require not_a_human (not (is_empty iah_proof))
  require empty_token_list (no_empty_list iah_proof)
  used ← gets (λ s. s.used_tokens caller)
  if is_some used then pure false else (do
    modify (λ s. record s { used_tokens = insert caller iah_proof s.used_tokens })
    pure true)

unfoldable pub recorded_sbts : AccountId → Call (Option Sbts)
recorded_sbts user = gets (λ s. s.used_tokens user)

-- The vote itself is only logged.
unfoldable pub vote : Env → AccountId → ℕ → VotePayload → Call (Unit {0})
vote env caller locked_until payload = do
  registry ← gets (λ s. s.registry)
  require not_registry (nat_eq env.predecessor registry)
  require not_locked (leb (add_u64 env.now voting_duration) locked_until)
  require invalid_proposal (ltb 0 payload.prop_id)
  require invalid_vote (list_eq payload.vote approve || list_eq payload.vote reject)
