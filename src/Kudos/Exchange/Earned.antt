-- ===== src/Kudos/Exchange/Earned.antt =====
-- What stands behind a mint (contracts/kudos/src/public.rs and callbacks/exchange_kudos_for_sbt.rs).
use i_am_human.Base.{
  ℕ, ◌+◌, ◌≤◌, ◌<◌, ◌≡◌, ◌≢◌, refl, true, false, Option, none, some, List, [], ◌∷◌, ltb, ltb→lt,
  arith, ok, Bool-cases, inl, inr, ◌⊎◌, Ensures, Ensures-gets, Ensures-require, Ensures-expect,
  Ensures-pure, Ensures-modify, Ensures-assoc, Ensures-of_eq,
}
use i_am_human.Near.{AccountId, Env}
use i_am_human.Near.Words.{u64_mod}
use i_am_human.Near.Keys.{ℕ_key}
use i_am_human.Near.Text.{Chars}
use i_am_human.Near.Lookup.{add}
use i_am_human.Sbt.{TokenMetadata, Sbts}
use i_am_human.Kudos.{Contract, KudosId, running}
use i_am_human.Kudos.Limits.{acquire_pok_sbt_expire_at_ts}
use i_am_human.Kudos.Json.{
  Reading, Value, build_kudos_upvotes_path, build_kudos_kind_path,
  parse_kudos_and_verify_if_allowed_to_exchange,
}
use i_am_human.Kudos.Json.Paths.{Upvoted, parse_kudos-Upvoted}
use i_am_human.Kudos.Owner.{assert_contract_running, database}
use i_am_human.Kudos.Exchange.{
  Exchange, is_human, get, sbt_mint, exchange_kudos_cost, minimum_gas_requirement,
  proof_of_kudos_sbt_mint_cost, exchange_kudos_for_sbt, acquire_number_of_upvotes,
  build_pok_sbt_metadata, mint_proof, on_kudos_upvotes_acquired, give_back,
}

-- The exchange that a call begins.
abbrev pub begun : Env → KudosId → Exchange
begun env id = record {
  predecessor_account_id = env.predecessor;
  attached_deposit = env.attached_deposit;
  kudos_id = id;
}

-- A call that begins an exchange was made while the contract ran, for a kudos not exchanged, with
-- the deposit, and asks whether the signer is human.
pub exchange-begins :
    (env : Env) (id : KudosId) (s : Contract)
    → Ensures
        (λ p t.
          (t ≡ s)
          × (s.running_state ≡ running)
          × (minimum_gas_requirement ≤ env.prepaid_gas)
          × (env.attached_deposit ≡ exchange_kudos_cost env)
          × (s.exchanged_kudos id ≡ false)
          × ((db : AccountId) × (s.external_db_id ≡ some db)
              × (p ≡ is_human s.iah_registry env.signer (begun env id) db)))
        (exchange_kudos_for_sbt env id s)
unfolding exchange_kudos_for_sbt assert_contract_running database
exchange-begins env id s = Ensures-assoc _ _ _ _ _ (
    Ensures-gets _ _ _ _ (
      Ensures-require _ _ _ _ _ λ r. Ensures-require _ _ _ _ _ λ g. Ensures-require _ _ _ _ _ λ d.
        Ensures-gets _ _ _ _ (
          Ensures-require _ _ _ _ _ λ n. Ensures-assoc _ _ _ _ _ (
            Ensures-gets _ _ _ _ (
              Ensures-expect _ _ _ _ _ λ db e. Ensures-gets _ _ _ _ (
                Ensures-pure _ _ _ _ (
                  refl,
                  ground (arith, r),
                  ground (arith, g),
                  ground (arith, d),
                  ground (arith, n),
                  (db, e, refl),
                )))))))

-- The answer that lets an exchange go on is a proof that is not empty.
acquire-asks :
    (reading : Reading) (env : Env) (x : Exchange) (db : AccountId) (answer : Option Sbts)
    (s : Contract)
    → Ensures
        (λ p t.
          (t ≡ s)
          × ((p ≡ give_back x)
              ⊎ ((answer ≢ none)
                  × (answer ≢ some [])
                  × ((request : List (List Chars)) × (p
                        ≡ get db request x
                            (build_kudos_upvotes_path reading env.current_account env.signer
                              x.kudos_id)
                            (build_kudos_kind_path reading env.current_account env.signer
                              x.kudos_id))))))
        (acquire_number_of_upvotes reading env x db answer s)
unfolding acquire_number_of_upvotes
acquire-asks reading env x db none s = Ensures-pure _ _ _ _ (refl, inl refl)
acquire-asks reading env x db (some []) s = Ensures-pure _ _ _ _ (refl, inl refl)
acquire-asks reading env x db (some (a ∷ rest)) s =
    Ensures-pure _ _ _ _
      (refl, inr (λ e. absurd (ground (arith, e)), λ e. absurd (ground (arith, e)), (_, refl)))

-- A mint comes of a favourable verdict, and records the kudos.
pub upvotes-mints :
    (reading : Reading) (env : Env) (x : Exchange) (upvotes_path kind_path : List Chars)
    (answer : Option Value) (s : Contract)
    → Ensures
        (λ p t.
          ((p ≡ give_back x) × (t ≡ s))
          ⊎ ((parse_kudos_and_verify_if_allowed_to_exchange reading answer upvotes_path kind_path
                  s.settings.min_number_of_upvotes_to_exchange_kudos
                ≡ true)
              × (env.now + s.settings.pok_sbt_ttl < u64_mod)
              × (t ≡ record s { exchanged_kudos = add x.kudos_id s.exchanged_kudos })
              × (p
                  ≡ sbt_mint s.iah_registry proof_of_kudos_sbt_mint_cost
                      ((
                        env.signer,
                        build_pok_sbt_metadata env.now (env.now + s.settings.pok_sbt_ttl) ∷ [],
                      )
                        ∷ [])
                      x)))
        (on_kudos_upvotes_acquired reading env x upvotes_path kind_path answer s)
unfolding on_kudos_upvotes_acquired mint_proof acquire_pok_sbt_expire_at_ts
upvotes-mints reading env x upvotes_path kind_path answer s =
    Ensures-gets _ _ _ _
      (elim (Bool-cases (
        parse_kudos_and_verify_if_allowed_to_exchange reading answer upvotes_path kind_path
          s.settings.min_number_of_upvotes_to_exchange_kudos)) [
            | inr e ↦ rw e (Ensures-pure _ _ _ _ (inl (refl, refl)))
            | inl e ↦ rw e (elim (Bool-cases (ltb (env.now + s.settings.pok_sbt_ttl) u64_mod)) [
              | inr f ↦ rw f (Ensures-pure _ _ _ _ (inl (refl, refl)))
              | inl f ↦ rw f (
                  Ensures-modify _ _ _ _ (
                    Ensures-gets _ _ _ _
                      (Ensures-pure _ _ _ _ (inr (refl, ltb→lt _ _ f, refl, refl)))))
            ])
          ])

-- When a call begins an exchange, the registry's answer and then the database's answer are received,
-- each in whatever state the contract then is and in receipts of the same signer and the same
-- contract, and a mint is asked for, then: the contract ran and had the deposit, and the kudos was
-- not recorded as exchanged when the call was made; the registry was asked about the signer and
-- answered with a proof that is not empty; the database's answer holds a kudos of the signer, no
-- ding, with as many upvoters as the settings ask for; one token is minted, for the signer, of class
-- 1, until the current time and the settings' duration; the kudos is recorded; and the callback of
-- the mint is given the caller, the deposit and the kudos of the call.
pub exchange-earned :
    (reading : Reading) (asking answering minting : Env) (id : KudosId) (s s' t t' u u' : Contract)
    (registry account db db' issuer : AccountId) (x y z : Exchange) (proof : Option Sbts)
    (request : List (List Chars)) (upvotes_path kind_path : List Chars) (answer : Option Value)
    (deposit : ℕ) (spec : List (AccountId × List TokenMetadata))
    → answering.signer ≡ asking.signer
    → minting.signer ≡ asking.signer
    → exchange_kudos_for_sbt asking id s ≡ ok (is_human registry account x db, s')
    → acquire_number_of_upvotes reading answering x db proof t
      ≡ ok (get db' request y upvotes_path kind_path, t')
    → on_kudos_upvotes_acquired reading minting y upvotes_path kind_path answer u
      ≡ ok (sbt_mint issuer deposit spec z, u')
    → (s.running_state ≡ running)
      × (asking.attached_deposit ≡ exchange_kudos_cost asking)
      × (s.exchanged_kudos id ≡ false)
      × (account ≡ asking.signer)
      × (proof ≢ none)
      × (proof ≢ some [])
      × ((json : Value) × (answer ≡ some json)
          × Upvoted reading json answering.current_account asking.signer id
              u.settings.min_number_of_upvotes_to_exchange_kudos)
      × (spec
          ≡ (
            asking.signer,
            build_pok_sbt_metadata minting.now (minting.now + u.settings.pok_sbt_ttl) ∷ [],
          )
            ∷ [])
      × (u' ≡ record u { exchanged_kudos = add id u.exchanged_kudos })
      × (z ≡ begun asking id)
exchange-earned reading asking answering minting id s s' t t' u u' registry account db db' issuer x
      y z proof request upvotes_path kind_path answer deposit spec same same' asked got mints =
    let g = Ensures-of_eq _ _ (exchange-begins asking id s) asked in
    let same_exchange : x ≡ begun asking id = cc (g.5.2) in
    elim (Ensures-of_eq _ _ (acquire-asks reading answering x db proof t) got).1 [
      | inl e ↦ absurd (ground (arith, e))
      | inr h ↦
          elim (Ensures-of_eq _ _ (upvotes-mints reading minting y upvotes_path kind_path answer u)
            mints) [
              | inl e ↦ absurd (ground (arith, e.0))
              | inr m ↦ (
                g.1,
                g.3,
                g.4,
                cc (g.5.2),
                h.0,
                h.1,
                parse_kudos-Upvoted reading answer answering.current_account asking.signer id _
                    (cc (m.0, h.2.1, same, same_exchange)),
                cc (m.3, same'),
                cc (m.2, h.2.1, same_exchange),
                cc (m.3, h.2.1, same_exchange),
              )
            ]
    ]
