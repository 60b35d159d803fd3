-- ===== src/Kudos/Tests.antt =====
-- Runs of the kudos contract, and the theorems at those runs.
use i_am_human.Base.{
  ℕ, ◌+◌, ◌≡◌, ◌≢◌, refl, false, List, [], ◌∷◌, Option, none, some, arith, err, ◌>>=◌, pure,
  Returns, if◌then◌else◌,
}
use i_am_human.Near.{AccountId, Env}
use i_am_human.Near.Keys.{ℕ_key, list_eq}
use i_am_human.Near.Lookup.{add}
use i_am_human.Sbt.{Sbts, TokenMetadata}
use i_am_human.Registry.Sample.{call_by}
use i_am_human.Kudos.{Contract, running, already_exchanged}
use i_am_human.Kudos.Limits.{acquire_pok_sbt_expire_at_ts}
use i_am_human.Kudos.Json.{
  Value, scalar, object, Members, end, member, Reading, KudosKind, kudos, ding, kudos_key,
  upvotes_key, kind_key, build_kudos_upvotes_path, build_kudos_kind_path,
  parse_kudos_and_verify_if_allowed_to_exchange,
}
use i_am_human.Kudos.Json.Paths.{Upvoted}
use i_am_human.Kudos.Owner.{init, assert_contract_running, database}
use i_am_human.Kudos.Exchange.{
  Promise, Outcome, promised, transfer, exchange_kudos_cost, exchange_kudos_for_sbt,
  acquire_number_of_upvotes, on_kudos_upvotes_acquired, on_pok_sbt_mint, mint_proof,
  build_pok_sbt_metadata,
}
use i_am_human.Kudos.Upvote.{
  upvote_kudos, upvote_kudos_cost, acquire_kudos_sender, on_kudos_sender_acquired, sender_key,
  build_get_kudos_by_id_request, build_upvote_kudos_request, extract_kudos_id_sender_from_response,
}
use i_am_human.Kudos.Upvote.Eligible.{paid, SentByOther, upvote-eligible}
use i_am_human.Kudos.Exchange.Earned.{begun, exchange-earned}
use i_am_human.Kudos.Exchange.Flight.{proof_mint, deliver, mint-failure_restores, exchange-twice}

abbrev size : Members → ℕ
size end = 0
size (member k v ms) = size ms + 1

abbrev kind_named : Value → Option KudosKind
kind_named (scalar t) =
    if list_eq t (107 ∷ []) then some kudos else if list_eq t (100 ∷ []) then some ding else none
kind_named (object ms) = none

abbrev voters : Value → Option ℕ
voters (scalar t) = none
voters (object ms) = some (size ms)

abbrev named : Value → Option AccountId
named (scalar (a ∷ [])) = some a
named (scalar t) = none
named (object ms) = none

-- An account and a number as two characters.
abbrev simple : Reading
simple = record {
  kind_of = kind_named;
  upvoters_of = voters;
  account_of = named;
  account_text = λ a. 97 ∷ a ∷ [];
  number_text = λ n. 49 ∷ n ∷ [];
}

-- The kudos 7 of account 5, as the contract with the account 3 keeps it, with three upvotes.
abbrev found : Value
found = object (
    member (97 ∷ 3 ∷ [])
      (object (
        member kudos_key
          (object (
            member (97 ∷ 5 ∷ [])
              (object (
                member (49 ∷ 7 ∷ [])
                  (object (
                    member kind_key (scalar (107 ∷ [])) (
                      member upvotes_key
                        (object (
                          member (97 ∷ 11 ∷ []) (scalar []) (
                            member (97 ∷ 12 ∷ []) (scalar [])
                              (member (97 ∷ 13 ∷ []) (scalar []) end))))
                        end)))
                  end))
              end))
          end))
      end)

abbrev asking : Env
asking = record (call_by 5) {
  signer = 5;
  current_account = 3;
  storage_byte_cost = 10000000000000000000;
  attached_deposit = 9490000000000000000000;
  prepaid_gas = 100000000000000;
}

abbrev ready : Contract
ready = record (init asking none 9) { external_db_id = some 8 }

-- The token.
abbrev earned : List (AccountId × List TokenMetadata)
earned = (5, build_pok_sbt_metadata asking.now (asking.now + 31536000000) ∷ []) ∷ []

abbrev proof : Sbts
proof = (4, 1 ∷ []) ∷ []

exchange-earned_example :
    (ready.running_state ≡ running)
    × (asking.attached_deposit ≡ exchange_kudos_cost asking)
    × (ready.exchanged_kudos 7 ≡ false)
    × (5 ≡ asking.signer)
    × (some proof ≢ none)
    × (some proof ≢ some [])
    × ((json : Value) × (some found ≡ some json) × Upvoted simple json 3 5 7 3)
    × (earned ≡ earned)
    × (record ready { exchanged_kudos = add 7 ready.exchanged_kudos }
        ≡ record ready { exchanged_kudos = add 7 ready.exchanged_kudos })
    × (begun asking 7 ≡ begun asking 7)
unfolding init exchange_kudos_for_sbt acquire_number_of_upvotes on_kudos_upvotes_acquired ◌>>=◌
    assert_contract_running database mint_proof build_kudos_upvotes_path build_kudos_kind_path
    parse_kudos_and_verify_if_allowed_to_exchange acquire_pok_sbt_expire_at_ts
exchange-earned_example =
    exchange-earned simple asking asking asking 7 ready ready ready ready ready
      (record ready { exchanged_kudos = add 7 ready.exchanged_kudos }) 9 5 8 8 9 (begun asking 7)
      (begun asking 7) (begun asking 7) (some proof) _ _ _ (some found) _ _ refl refl refl refl refl

mint-failure_restores_example :
    Returns
      (λ (r : Promise × Outcome) t.
        (r.0 ≡ proof_mint asking (begun asking 7) ready)
        × (r.1 ≡ promised (transfer 5 9490000000000000000000))
        × (t ≡ ready))
      ((do
        p ←
            on_kudos_upvotes_acquired simple asking
              (begun asking 7)
              (build_kudos_upvotes_path simple 3 5 7)
              (build_kudos_kind_path simple 3 5 7)
              (some found)
        o ← on_pok_sbt_mint (begun asking 7) none
        pure (p, o))
        ready)
unfolding init build_kudos_upvotes_path build_kudos_kind_path
    parse_kudos_and_verify_if_allowed_to_exchange
mint-failure_restores_example =
    mint-failure_restores simple asking (begun asking 7) (build_kudos_upvotes_path simple 3 5 7)
      (build_kudos_kind_path simple 3 5 7) (some found) ready refl refl (omega arith)

exchange-twice_example :
    Returns
      (λ (r : Promise × Promise) t.
        (r.0 ≡ proof_mint asking (begun asking 7) ready)
        × (r.1 ≡ proof_mint asking (begun asking 7) ready)
        × (exchange_kudos_for_sbt asking 7 t ≡ err already_exchanged))
      ((do
        p ← exchange_kudos_for_sbt asking 7
        q ← exchange_kudos_for_sbt asking 7
        p' ← deliver simple asking (some proof) (some found) p
        q' ← deliver simple asking (some proof) (some found) q
        p'' ← deliver simple asking (some proof) (some found) p'
        q'' ← deliver simple asking (some proof) (some found) q'
        pure (p'', q''))
        ready)
unfolding init build_kudos_upvotes_path build_kudos_kind_path
    parse_kudos_and_verify_if_allowed_to_exchange
exchange-twice_example =
    exchange-twice simple asking asking 7 8 4 (1 ∷ []) [] (some found) ready
      (refl, omega arith, refl, refl, refl) refl (omega arith)

-- The kudos's sender, account 9, in the database's answer.
abbrev sent : Value
sent = object (
    member (97 ∷ 3 ∷ [])
      (object (
        member kudos_key
          (object (
            member (97 ∷ 5 ∷ [])
              (object (member (49 ∷ 7 ∷ []) (object (member sender_key (scalar (9 ∷ [])) end)) end))
              end))
          end))
      end)

abbrev upvoting : Env
upvoting = record asking { predecessor = 6; signer = 6; attached_deposit = 4000000000000000000000 }

upvote-eligible_example :
    (ready.running_state ≡ running)
    × (upvoting.attached_deposit ≡ upvote_kudos_cost)
    × ((ready ≡ ready) × (ready ≡ ready) × (ready ≡ ready))
    × (6 ≡ upvoting.signer)
    × (some proof ≢ none)
    × (some proof ≢ some [])
    × (5 ≢ upvoting.signer)
    × SentByOther simple (some sent) 3 5 7 6
    × (ready.external_db_id ≡ some 8)
    × (4000000000000000000000 ≡ upvote_kudos_cost)
    × (build_upvote_kudos_request simple 3 6 5 7 ≡ build_upvote_kudos_request simple 3 6 5 7)
    × (paid upvoting ≡ paid upvoting)
unfolding init upvote_kudos acquire_kudos_sender on_kudos_sender_acquired ◌>>=◌
    assert_contract_running database build_get_kudos_by_id_request
    extract_kudos_id_sender_from_response i_am_human.Kudos.Json.remove_key_from_json
upvote-eligible_example =
    upvote-eligible simple upvoting upvoting upvoting 5 7 ready ready ready ready ready ready 9 6 8
      8 8 8 5 7 (paid upvoting) (paid upvoting) (paid upvoting) (some proof) _ _ (some sent) _
      (build_upvote_kudos_request simple 3 6 5 7) 4000000000000000000000 (λ a e. ground (arith, e))
      (λ n e. ground (arith, e)) refl refl refl refl refl
