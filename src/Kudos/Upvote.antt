-- ===== src/Kudos/Upvote.antt =====
-- The upvote of a kudos: `upvote_kudos` of contracts/kudos/src/public.rs and its callbacks
-- (contracts/kudos/src/callbacks/upvote_kudos.rs). `none` as an answer is a call that failed; the
-- gas of the promises is not modelled.
pub mod Eligible
use i_am_human.Base.{
  ℕ, ◌+◌, ◌*◌, Bool, true, false, not, Option, none, some, List, [], ◌∷◌, map, leb, if◌then◌else◌,
  ◌>>=◌, ◌>>◌, pure, gets, require, ◌==◌ as nat_eq,
}
use i_am_human.Near.{AccountId, Env}
use i_am_human.Near.Keys.{list_eq}
use i_am_human.Near.Text.{Chars}
use i_am_human.Sbt.{Sbts}
use i_am_human.Cost.{one_tera}
use i_am_human.Kudos.{Call, KudosId, not_enough_gas, wrong_deposit, not_eligible}
use i_am_human.Kudos.Json.{
  Reading, Value, scalar, object, end, member, kudos_key, upvotes_key, remove_key_from_json,
}
use i_am_human.Kudos.Owner.{assert_contract_running, database}
use i_am_human.Kudos.Exchange.{any_key}

-- `UPVOTE_KUDOS_COST`
abbrev pub upvote_kudos_cost : ℕ
upvote_kudos_cost = 4000000000000000000000

-- The method's `minimum_gas_requirement`.
abbrev pub upvote_gas_requirement : ℕ
upvote_gas_requirement = (15 + 12 + 15 + 10 + 15 + 10 + 10 + 5) * one_tera

-- What every callback of an upvote is given.
pub record Payment : Type 0 where
  pub predecessor_account_id : AccountId
  pub attached_deposit : ℕ

-- The promises, each with what its callback gets: `is_human` of the registry for an account and
-- `acquire_kudos_sender`; `get` of the database for a path and `on_kudos_sender_acquired`; `set` of
-- the database with a deposit and `on_kudos_upvote_saved`; a transfer and `on_failure`.
pub data UpvotePromise : Type 0 where
  ask : AccountId → AccountId → Payment → AccountId → AccountId → KudosId → UpvotePromise
  fetch : AccountId → List Chars → Payment → AccountId → List Chars → Value → UpvotePromise
  save : AccountId → ℕ → Value → Payment → UpvotePromise
  repay : AccountId → ℕ → UpvotePromise

unfoldable pub upvote_kudos : Env → AccountId → KudosId → Call UpvotePromise
upvote_kudos env receiver_id kudos_id = do
  assert_contract_running
  require not_eligible (not (nat_eq receiver_id env.signer))
  require not_enough_gas (leb upvote_gas_requirement env.prepaid_gas)
  require wrong_deposit (nat_eq env.attached_deposit upvote_kudos_cost)
  db ← database
  registry ← gets (λ s. s.iah_registry)
  pure (
      ask registry env.signer
        (record {
          predecessor_account_id = env.predecessor;
          attached_deposit = env.attached_deposit;
        })
        db receiver_id kudos_id)

abbrev pub pay_back : Payment → UpvotePromise
pay_back x = repay x.predecessor_account_id x.attached_deposit

-- "sender_id"
abbrev pub sender_key : Chars
sender_key = 115 ∷ 101 ∷ 110 ∷ 100 ∷ 101 ∷ 114 ∷ 95 ∷ 105 ∷ 100 ∷ []

-- `str::replace` of '*', in a path of which one key is that and no other has it.
abbrev pub replace_any : Chars → Chars → Chars
replace_any new key = if list_eq key any_key then new else key

module _ (reading : Reading) where
  unfoldable pub build_get_kudos_by_id_request : AccountId → AccountId → KudosId → List Chars
  build_get_kudos_by_id_request root_id receiver_id kudos_id =
      reading.account_text root_id
      ∷ kudos_key
      ∷ reading.account_text receiver_id
      ∷ reading.number_text kudos_id
      ∷ any_key
      ∷ []

  unfoldable pub build_upvote_kudos_request : AccountId → AccountId → AccountId → KudosId → Value
  build_upvote_kudos_request root_id sender_id receiver_id kudos_id =
      let upvotes = object (member (reading.account_text sender_id) (scalar []) end) in
      let kudos_by_id =
        object
          (member (reading.number_text kudos_id) (object (member upvotes_key upvotes end)) end) in
      let kudos_by_receiver = object (member (reading.account_text receiver_id) kudos_by_id end) in
      object (
        member (reading.account_text root_id) (object (member kudos_key kudos_by_receiver end)) end)

  unfoldable pub acquire_kudos_sender :
      Env → Payment → AccountId → AccountId → KudosId → Option Sbts → Call UpvotePromise
  acquire_kudos_sender env x external_db_id receiver_id kudos_id none = pure (pay_back x)
  acquire_kudos_sender env x external_db_id receiver_id kudos_id (some []) = pure (pay_back x)
  acquire_kudos_sender env x external_db_id receiver_id kudos_id (some (_ ∷ _)) =
      let upvote_kudos_req =
        build_upvote_kudos_request env.current_account env.signer receiver_id kudos_id in
      let request = build_get_kudos_by_id_request env.current_account receiver_id kudos_id in
      pure (fetch external_db_id request x external_db_id request upvote_kudos_req)

  -- The account that a value names, if there is one.
  abbrev pub account_in : Option Value → Option AccountId
  account_in none = none
  account_in (some v) = reading.account_of v

  unfoldable pub extract_kudos_id_sender_from_response : List Chars → Value → Option AccountId
  extract_kudos_id_sender_from_response req res =
      account_in (remove_key_from_json (map (replace_any sender_key) req) res).0

  -- Whether the answer names a sender, and another account than the signer.
  abbrev pub sent_by_other : Env → List Chars → Option Value → Bool
  sent_by_other env request none = false
  sent_by_other env request (some res) = elim (extract_kudos_id_sender_from_response request res) [
    | none ↦ false
    | some sender_id ↦ not (nat_eq sender_id env.signer)
  ]

  unfoldable pub on_kudos_sender_acquired :
      Env → Payment → AccountId → List Chars → Value → Option Value → Call UpvotePromise
  on_kudos_sender_acquired env x external_db_id request upvote_kudos_req answer =
      if sent_by_other env request answer
      then pure (save external_db_id x.attached_deposit upvote_kudos_req x)
      else pure (pay_back x)

-- What the last callback answers: the time, or the promise of the transfer.
pub data UpvoteOutcome : Type 0 where
  upvoted : ℕ → UpvoteOutcome
  refused : UpvotePromise → UpvoteOutcome

unfoldable pub on_kudos_upvote_saved : Env → Payment → Option (Unit {0}) → Call UpvoteOutcome
on_kudos_upvote_saved env x none = pure (refused (pay_back x))
on_kudos_upvote_saved env x (some _) = pure (upvoted env.now)
