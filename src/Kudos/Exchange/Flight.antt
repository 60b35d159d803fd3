-- ===== src/Kudos/Exchange/Flight.antt =====
-- Exchanges while their answers are awaited: a mint that fails, and two exchanges of one kudos
-- (contracts/kudos/src/public.rs and callbacks/exchange_kudos_for_sbt.rs).
use i_am_human.Base.{
  ◌+◌, ◌≤◌, ◌<◌, ◌≡◌, refl, ap, ◌∙◌, true, false, not, Option, none, some, List, [], ◌∷◌, arith,
  lt→ltb, leb, ◌>>=◌, pure, Returns, Returns-bind, Returns-gets, Returns-require, Returns-expect,
  Returns-modify, Returns-pure, Returns-assoc, require-true, require-false, ◌==◌ as nat_eq, err,
}
use i_am_human.Near.{AccountId, Env}
use i_am_human.Near.Words.{u64_mod}
use i_am_human.Near.Keys.{ℕ_key}
use i_am_human.Near.Text.{Chars}
use i_am_human.Near.Lookup.{add, drop, drop-add}
use i_am_human.Sbt.{Sbts, TokenId}
use i_am_human.Kudos.{Contract, Call, KudosId, running, already_exchanged}
use i_am_human.Kudos.Limits.{acquire_pok_sbt_expire_at_ts}
use i_am_human.Kudos.Json.{
  Reading, Value, build_kudos_upvotes_path, build_kudos_kind_path,
  parse_kudos_and_verify_if_allowed_to_exchange,
}
use i_am_human.Kudos.Owner.{assert_contract_running, database, is_running}
use i_am_human.Kudos.Exchange.{
  Exchange, Promise, is_human, get, sbt_mint, transfer, exchange_kudos_cost,
  minimum_gas_requirement, proof_of_kudos_sbt_mint_cost, exchange_kudos_for_sbt,
  acquire_number_of_upvotes, build_pok_sbt_metadata, mint_proof, on_kudos_upvotes_acquired,
  on_pok_sbt_mint, Outcome, promised, give_back,
}
use i_am_human.Kudos.Exchange.Earned.{begun}

-- The mint that the contract asks for in this state.
abbrev pub proof_mint : Env → Exchange → Contract → Promise
proof_mint env x s =
    sbt_mint s.iah_registry proof_of_kudos_sbt_mint_cost
      ((env.signer, build_pok_sbt_metadata env.now (env.now + s.settings.pok_sbt_ttl) ∷ []) ∷ []) x

-- The call passes every guard.
abbrev pub Passes : Env → KudosId → AccountId → Contract → Type 0
Passes env id db s =
    (s.running_state ≡ running)
    × (minimum_gas_requirement ≤ env.prepaid_gas)
    × (env.attached_deposit ≡ exchange_kudos_cost env)
    × (s.exchanged_kudos id ≡ false)
    × (s.external_db_id ≡ some db)

exchange-succeeds :
    (env : Env) (id : KudosId) (db : AccountId) (s : Contract)
    → Passes env id db s
    → Returns
        (λ p t. (p ≡ is_human s.iah_registry env.signer (begun env id) db) × (t ≡ s))
        (exchange_kudos_for_sbt env id s)
unfolding exchange_kudos_for_sbt assert_contract_running database
exchange-succeeds env id db s (r, g, d, n, e) = Returns-assoc _ _ _ _ _ (
    Returns-gets _ _ _ _ (
      Returns-require _ _ _ _ _ (ap is_running r) (
        Returns-require _ _ _ _ _ (ground (arith, g)) (
          Returns-require _ _ _ _ _ (ground (arith, d)) (
            Returns-gets _ _ _ _ (
              Returns-require _ _ _ _ _ (ap not n) (
                Returns-assoc _ _ _ _ _ (
                  Returns-gets _ _ _ _ (
                    Returns-expect _ _ _ _ _ db e
                      (Returns-gets _ _ _ _ (Returns-pure _ _ _ _ (refl, refl))))))))))))

upvotes-succeed :
    (reading : Reading) (env : Env) (x : Exchange) (upvotes_path kind_path : List Chars)
    (answer : Option Value) (s : Contract)
    → parse_kudos_and_verify_if_allowed_to_exchange reading answer upvotes_path kind_path
        s.settings.min_number_of_upvotes_to_exchange_kudos
      ≡ true
    → env.now + s.settings.pok_sbt_ttl < u64_mod
    → Returns
        (λ p t.
          (p ≡ proof_mint env x s)
          × (t ≡ record s { exchanged_kudos = add x.kudos_id s.exchanged_kudos }))
        (on_kudos_upvotes_acquired reading env x upvotes_path kind_path answer s)
unfolding on_kudos_upvotes_acquired mint_proof acquire_pok_sbt_expire_at_ts
upvotes-succeed reading env x upvotes_path kind_path answer s verdict fits = Returns-gets _ _ _ _ (
    rw verdict (
      rw (lt→ltb _ _ fits)
        (Returns-modify _ _ _ _ (Returns-gets _ _ _ _ (Returns-pure _ _ _ _ (refl, refl))))))

on_pok_sbt_mint-failed :
    (x : Exchange) (s : Contract)
    → Returns
        (λ o t.
          (o ≡ promised (give_back x))
          × (t ≡ record s { exchanged_kudos = drop x.kudos_id s.exchanged_kudos }))
        (on_pok_sbt_mint x none s)
unfolding on_pok_sbt_mint
on_pok_sbt_mint-failed x s = Returns-modify _ _ _ _ (Returns-pure _ _ _ _ (refl, refl))

-- For a kudos that is not recorded, with a favourable verdict and an expiry in `u64`, the contract
-- asks for the mint, and if the mint fails, then it is again in the state in which it was, and the
-- caller is given the deposit back.
pub mint-failure_restores :
    (reading : Reading) (env : Env) (x : Exchange) (upvotes_path kind_path : List Chars)
    (answer : Option Value) (s : Contract)
    → s.exchanged_kudos x.kudos_id ≡ false
    → parse_kudos_and_verify_if_allowed_to_exchange reading answer upvotes_path kind_path
        s.settings.min_number_of_upvotes_to_exchange_kudos
      ≡ true
    → env.now + s.settings.pok_sbt_ttl < u64_mod
    → Returns
        (λ (r : Promise × Outcome) t.
          (r.0 ≡ proof_mint env x s)
          × (r.1 ≡ promised (transfer x.predecessor_account_id x.attached_deposit))
          × (t ≡ s))
        ((do
          p ← on_kudos_upvotes_acquired reading env x upvotes_path kind_path answer
          o ← on_pok_sbt_mint x none
          pure (p, o))
          s)
mint-failure_restores reading env x upvotes_path kind_path answer s new verdict fits =
    Returns-bind _ _ _ _ _
      (upvotes-succeed reading env x upvotes_path kind_path answer s verdict fits)
      λ p t (e, f). Returns-bind _ _ _ _ _ (on_pok_sbt_mint-failed x t) λ o u (g, h).
        Returns-pure _ _ _ _ (
          e,
          g,
          h
              ∙ rw f (
                  ap (λ m. record s { exchanged_kudos = m })
                    (drop-add x.kudos_id s.exchanged_kudos new)),
        )

-- The callback of a promise of an exchange, with the registry's or the database's answer.
abbrev pub deliver : Reading → Env → Option Sbts → Option Value → Promise → Call Promise
deliver reading env proof answer (is_human registry account x db) =
    acquire_number_of_upvotes reading env x db proof
deliver reading env proof answer (get db request x upvotes_path kind_path) =
    on_kudos_upvotes_acquired reading env x upvotes_path kind_path answer
deliver reading env proof answer (sbt_mint registry deposit spec x) =
    pure (sbt_mint registry deposit spec x)
deliver reading env proof answer (transfer account amount) = pure (transfer account amount)

acquire-succeeds :
    (reading : Reading) (env : Env) (x : Exchange) (db a : AccountId) (tokens : List TokenId)
    (rest : Sbts) (s : Contract)
    → Returns
        (λ p t.
          ((request : List (List Chars)) × (p
              ≡ get db request x
                  (build_kudos_upvotes_path reading env.current_account env.signer x.kudos_id)
                  (build_kudos_kind_path reading env.current_account env.signer x.kudos_id)))
          × (t ≡ s))
        (acquire_number_of_upvotes reading env x db (some ((a, tokens) ∷ rest)) s)
unfolding acquire_number_of_upvotes
acquire-succeeds reading env x db a tokens rest s = Returns-pure _ _ _ _ ((_, refl), refl)

exchange-refused :
    (env : Env) (id : KudosId) (s : Contract)
    → s.running_state ≡ running
    → minimum_gas_requirement ≤ env.prepaid_gas
    → env.attached_deposit ≡ exchange_kudos_cost env
    → s.exchanged_kudos id ≡ true
    → exchange_kudos_for_sbt env id s ≡ err already_exchanged
unfolding exchange_kudos_for_sbt assert_contract_running ◌>>=◌
exchange-refused env id s r g d e =
    let gas : leb minimum_gas_requirement env.prepaid_gas ≡ true = ground (arith, g) in
    let paid : nat_eq env.attached_deposit (exchange_kudos_cost env) ≡ true = ground (arith, d) in
    require-true _ (is_running s.running_state) _ s (ap is_running r)
    ∙ require-true _ _ _ s gas
    ∙ require-true _ _ _ s paid
    ∙ require-false _ _ _ s (ap not e)

-- When a call passes the guards, for a signer with a proof of humanity and a kudos with a favourable
-- verdict, and it is made twice before the answers are received, then both times the same mint is
-- asked for, though each call would be refused after the other's mint.
pub exchange-twice :
    (reading : Reading) (env later : Env) (id : KudosId) (db a : AccountId) (tokens : List TokenId)
    (rest : Sbts) (answer : Option Value) (s : Contract)
    → Passes env id db s
    → parse_kudos_and_verify_if_allowed_to_exchange reading answer
        (build_kudos_upvotes_path reading later.current_account later.signer id)
        (build_kudos_kind_path reading later.current_account later.signer id)
        s.settings.min_number_of_upvotes_to_exchange_kudos
      ≡ true
    → later.now + s.settings.pok_sbt_ttl < u64_mod
    → Returns
        (λ (r : Promise × Promise) t.
          (r.0 ≡ proof_mint later (begun env id) s)
          × (r.1 ≡ proof_mint later (begun env id) s)
          × (exchange_kudos_for_sbt env id t ≡ err already_exchanged))
        ((do
          p ← exchange_kudos_for_sbt env id
          q ← exchange_kudos_for_sbt env id
          p' ← deliver reading later (some ((a, tokens) ∷ rest)) answer p
          q' ← deliver reading later (some ((a, tokens) ∷ rest)) answer q
          p'' ← deliver reading later (some ((a, tokens) ∷ rest)) answer p'
          q'' ← deliver reading later (some ((a, tokens) ∷ rest)) answer q'
          pure (p'', q''))
          s)
exchange-twice reading env later id db a tokens rest answer s pass verdict fits =
    Returns-bind _ _ _ _ _ (exchange-succeeds env id db s pass) λ p s1 (e1, f1).
      rw (e1, f1)
        (Returns-bind _ _ _ _ _ (exchange-succeeds env id db s pass) λ q s2 (e2, f2).
          rw (e2, f2)
            (Returns-bind _ _ _ _ _
              (acquire-succeeds reading later (begun env id) db a tokens rest s)
              λ p' s3 ((r3, e3), f3).
                rw (e3, f3)
                  (Returns-bind _ _ _ _ _
                    (acquire-succeeds reading later (begun env id) db a tokens rest s)
                    λ q' s4 ((r4, e4), f4).
                      rw (e4, f4)
                        (Returns-bind _ _ _ _ _
                          (upvotes-succeed reading later (begun env id) _ _ answer s verdict fits)
                          λ p'' s5 (e5, f5).
                            rw (e5, f5)
                              (Returns-bind _ _ _ _ _
                                (upvotes-succeed reading later (begun env id) _ _ answer _ verdict
                                  fits)
                                λ q'' s6 (e6, f6).
                                  rw (e6, f6)
                                    (Returns-pure _ _ _ _ (
                                      refl,
                                      refl,
                                      exchange-refused env id _ pass.0 pass.1 pass.2 (ground arith),
                                    )))))))
