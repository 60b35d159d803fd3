-- ===== src/Clients/Tests.antt =====
-- Runs of the small contracts, and the theorems at those runs.
use i_am_human.Base.{
  ℕ, ◌+◌, ◌/◌, ◌≤◌, ◌<◌, ◌≡◌, ◌≢◌, refl, Bool, true, false, not, List, [], ◌∷◌, Option, none, some,
  String, is_some, is_empty, unwrap_or, arith, ok, ◌>>=◌, ◌>>◌, Ensures, Returns,
}
use i_am_human.Near.{AccountId, Env}
use i_am_human.Near.Keys.{ℕ_key}
use i_am_human.Near.Lookup.{empty, insert}
use i_am_human.Registry.{Contract, transfer_lock}
use i_am_human.Registry.Sample.{call_by, one_sbt, one_sbt-IsValid, iah_issued}
use i_am_human.Registry.Human.{is_human_call_lock}
use i_am_human.Registry.Human.Lock.{Onward, at_once, locks}
use i_am_human.Registry.Transfer.{sbt_soul_transfer}
use i_am_human.Clients.HumanChecker as Checker
use i_am_human.Clients.HumanChecker.{
  vote, register_human_token, approve, no_empty_list, expected_vec_payload, VotePayload,
  RegisterHumanPayload,
}
use i_am_human.Clients.HumanChecker.Voting.{vote-forbids}
use i_am_human.Clients.Ubi as Ubi
use i_am_human.Clients.Ubi.{day, claim, register_callback}
use i_am_human.Clients.Ubi.Daily.{done, registers, claim-daily, register_callback-claim}

abbrev any_json : String → Bool
any_json payload = true

-- The checker of the registry with the account 1.
abbrev checker : Checker.Contract
checker = Checker.new 1

abbrev approval : VotePayload
approval = record { prop_id = 7; vote = approve }

-- The registry after the call.
abbrev locked : Contract
locked = record one_sbt { transfer_locks = insert 5 31000 empty; logs = transfer_lock 5 31000 ∷ [] }

abbrev at : ℕ → Env
at now = record (call_by 5) { now = now }

-- A second lock of the voter, asked for a shorter time, keeps the first.
abbrev again : Contract
again = locked

asked_again : Onward any_json locked again
unfolding is_human_call_lock i_am_human.Base.◌>>=◌ i_am_human.Near.Tree.iter_from
asked_again = locks at_once (at 2000) 9 "vote" "{}" 100 true _ again refl

vote-forbids_example : Ensures (λ _ _. ⊥) (sbt_soul_transfer (at 22000) 6 again)
unfolding is_human_call_lock i_am_human.Base.◌>>=◌ i_am_human.Near.Tree.iter_from vote Checker.new
vote-forbids_example =
    vote-forbids any_json (call_by 5) 9 "vote" "{}" 30000 true one_sbt _ _
      (record (call_by 1) { now = 2000 }) approval checker checker 31000 iah_issued one_sbt-IsValid
      (omega arith) (omega arith) (omega arith) refl refl refl again (at 22000) 6 asked_again refl
      (omega arith)

-- Account 5 qualified at some time and last claimed on the first day.
abbrev registered : Ubi.Contract
registered = record (Ubi.new 4 100) {
  humans = insert 5 (record { last_claim = 10; expires_at = 100000000 }) empty;
}

claim-daily_example : 90000000 / 1000 + day < 190000000 / 1000
unfolding claim Ubi.new register_callback i_am_human.Base.◌>>=◌
claim-daily_example =
    claim-daily (at 90000000) (at 190000000) _ _ registered _ _ _ (omega arith) refl
      (registers done (at 90000000) 6 (some true) true _ (omega arith) refl) refl refl

register_callback-claim_example :
    Returns
      (λ paid _. paid ≡ (5, registered.emission))
      ((register_callback (at 90000000) 5 (some true) >> claim (at 90000000)) registered)
register_callback-claim_example =
    register_callback-claim (at 90000000) (at 90000000) 5 registered (omega arith) (omega arith)
      refl refl
