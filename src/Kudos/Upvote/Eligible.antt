-- ===== src/Kudos/Upvote/Eligible.antt =====
-- Who can upvote a kudos (contracts/kudos/src/public.rs and callbacks/upvote_kudos.rs).
use i_am_human.Base.{
  ℕ, ◌≡◌, ◌≢◌, refl, subst, true, Option, none, some, List, [], ◌∷◌, arith, ok, Bool-cases,
  Option-cases, inl, inr, ◌⊎◌, Ensures, Ensures-gets, Ensures-require, Ensures-expect, Ensures-pure,
  Ensures-assoc, Ensures-of_eq, map,
}
use i_am_human.Near.{AccountId, Env}
use i_am_human.Near.Keys.{list_eq, list_eq_iff}
use i_am_human.Near.Text.{Chars}
use i_am_human.Sbt.{Sbts}
use i_am_human.Kudos.{Contract, KudosId, running}
use i_am_human.Kudos.Json.{Reading, Value, kudos_key}
use i_am_human.Kudos.Json.Paths.{look_up, remove_key_from_json-look_up}
use i_am_human.Kudos.Owner.{assert_contract_running, database}
use i_am_human.Kudos.Exchange.{any_key}
use i_am_human.Kudos.Upvote.{
  Payment, ask, fetch, save, pay_back, upvote_kudos_cost, upvote_kudos, sender_key, replace_any,
  build_get_kudos_by_id_request, build_upvote_kudos_request, acquire_kudos_sender, account_in,
  extract_kudos_id_sender_from_response, sent_by_other, on_kudos_sender_acquired,
}

-- The payment of a call.
abbrev pub paid : Env → Payment
paid env = record {
  predecessor_account_id = env.predecessor;
  attached_deposit = env.attached_deposit;
}

upvote-begins :
    (env : Env) (receiver_id : AccountId) (id : KudosId) (s : Contract)
    → Ensures
        (λ p t.
          (t ≡ s)
          × (s.running_state ≡ running)
          × (receiver_id ≢ env.signer)
          × (env.attached_deposit ≡ upvote_kudos_cost)
          × ((db : AccountId) × (s.external_db_id ≡ some db)
              × (p ≡ ask s.iah_registry env.signer (paid env) db receiver_id id)))
        (upvote_kudos env receiver_id id s)
unfolding upvote_kudos assert_contract_running database
upvote-begins env receiver_id id s = Ensures-assoc _ _ _ _ _ (
    Ensures-gets _ _ _ _ (
      Ensures-require _ _ _ _ _ λ r. Ensures-require _ _ _ _ _ λ n. Ensures-require _ _ _ _ _ λ g.
        Ensures-require _ _ _ _ _ λ d. Ensures-assoc _ _ _ _ _ (
          Ensures-gets _ _ _ _ (
            Ensures-expect _ _ _ _ _ λ db e. Ensures-gets _ _ _ _ (
              Ensures-pure _ _ _ _
                (refl, ground (arith, r), ground (arith, n), ground (arith, d), (db, e, refl)))))))

module _ (reading : Reading) where
  acquire-fetches :
      (env : Env) (x : Payment) (db receiver_id : AccountId) (id : KudosId) (answer : Option Sbts)
      (s : Contract)
      → Ensures
          (λ p t.
            (t ≡ s)
            × ((p ≡ pay_back x)
                ⊎ ((answer ≢ none)
                    × (answer ≢ some [])
                    × (p
                        ≡ fetch db
                            (build_get_kudos_by_id_request reading env.current_account receiver_id
                              id)
                            x
                            db
                            (build_get_kudos_by_id_request reading env.current_account receiver_id
                              id)
                            (build_upvote_kudos_request reading env.current_account env.signer
                              receiver_id id)))))
          (acquire_kudos_sender reading env x db receiver_id id answer s)
  unfolding acquire_kudos_sender
  acquire-fetches env x db receiver_id id none s = Ensures-pure _ _ _ _ (refl, inl refl)
  acquire-fetches env x db receiver_id id (some []) s = Ensures-pure _ _ _ _ (refl, inl refl)
  acquire-fetches env x db receiver_id id (some (a ∷ rest)) s =
      Ensures-pure _ _ _ _
        (refl, inr (λ e. absurd (ground (arith, e)), λ e. absurd (ground (arith, e)), refl))

  -- Where the database keeps the sender of a kudos.
  abbrev pub sender_path : AccountId → AccountId → KudosId → List Chars
  sender_path root_id receiver_id id =
      reading.account_text root_id
      ∷ kudos_key
      ∷ reading.account_text receiver_id
      ∷ reading.number_text id
      ∷ sender_key
      ∷ []

  replace_any-other : (new key : Chars) → key ≢ any_key → replace_any new key ≡ key
  replace_any-other new key ne = elim (Bool-cases (list_eq key any_key)) [
    | inl e ↦ absurd (ne ((list_eq_iff key any_key).0 e))
    | inr e ↦ rw e refl
  ]

  request-sender :
      (root_id receiver_id : AccountId) (id : KudosId)
      → ((a : AccountId) → reading.account_text a ≢ any_key)
      → ((n : ℕ) → reading.number_text n ≢ any_key)
      → map (replace_any sender_key) (build_get_kudos_by_id_request reading root_id receiver_id id)
        ≡ sender_path root_id receiver_id id
  unfolding build_get_kudos_by_id_request
  request-sender root_id receiver_id id accounts numbers = cc (
    replace_any-other sender_key (reading.account_text root_id) (accounts root_id),
    replace_any-other sender_key (reading.account_text receiver_id) (accounts receiver_id),
    replace_any-other sender_key (reading.number_text id) (numbers id),
  )

  -- The database's answer names another account than this one as the kudos's sender.
  abbrev pub SentByOther : Option Value → AccountId → AccountId → KudosId → AccountId → Type 0
  SentByOther answer root_id receiver_id id account =
      (json : Value) × (raw : Value) × (sender : AccountId) × (answer ≡ some json)
      × (look_up (sender_path root_id receiver_id id) json ≡ some raw)
      × (reading.account_of raw ≡ some sender)
      × (sender ≢ account)

  account_in-some :
      (o : Option Value) (a : AccountId)
      → account_in reading o ≡ some a
      → (raw : Value) × (o ≡ some raw) × (reading.account_of raw ≡ some a)
  account_in-some none a e = absurd (ground (arith, e))
  account_in-some (some raw) a e = (raw, refl, e)

  sent_by_other-SentByOther :
      (env : Env) (answer : Option Value) (root_id receiver_id : AccountId) (id : KudosId)
      → ((a : AccountId) → reading.account_text a ≢ any_key)
      → ((n : ℕ) → reading.number_text n ≢ any_key)
      → sent_by_other reading env
          (build_get_kudos_by_id_request reading root_id receiver_id id)
          answer
        ≡ true
      → SentByOther answer root_id receiver_id id env.signer
  unfolding extract_kudos_id_sender_from_response
  sent_by_other-SentByOther env none root_id receiver_id id accounts numbers h =
      absurd (ground (arith, h))
  sent_by_other-SentByOther env (some json) root_id receiver_id id accounts numbers h =
      let path = request-sender root_id receiver_id id accounts numbers in
      let found =
        remove_key_from_json-look_up (reading.account_text root_id)
          (kudos_key ∷ reading.account_text receiver_id ∷ reading.number_text id ∷ sender_key ∷ [])
          json in
      elim (Option-cases (account_in reading (look_up (sender_path root_id receiver_id id) json))) [
        | inl e ↦ absurd (ground (arith, h, path, found, e))
        | inr (sender, e) ↦
            (let g = account_in-some (look_up (sender_path root_id receiver_id id) json) sender e in
              (json, g.0, sender, refl, g.1, g.2, ground (arith, h, path, found, e)))
      ]

  saves-other :
      (env : Env) (x : Payment) (db : AccountId) (request : List Chars) (prepared : Value)
      (answer : Option Value) (s : Contract)
      → Ensures
          (λ p t.
            (t ≡ s)
            × ((p ≡ pay_back x)
                ⊎ ((sent_by_other reading env request answer ≡ true)
                    × (p ≡ save db x.attached_deposit prepared x))))
          (on_kudos_sender_acquired reading env x db request prepared answer s)
  unfolding on_kudos_sender_acquired
  saves-other env x db request prepared answer s =
      elim (Bool-cases (sent_by_other reading env request answer)) [
        | inl e ↦ rw e (Ensures-pure _ _ _ _ (refl, inr (refl, refl)))
        | inr e ↦ rw e (Ensures-pure _ _ _ _ (refl, inl refl))
      ]

  -- When a call begins an upvote, the registry's and then the database's answer are received, each in
  -- whatever state the contract then is and in receipts of the same signer, and the upvote is to be
  -- written, then: the contract ran, the deposit was paid, and no call changed the contract; the
  -- registry answered with a proof that is not empty; the signer is not the kudos's receiver, and the
  -- database's answer names a sender of the kudos who is not the signer; and what is written, to the
  -- contract's database and with the deposit, is the upvote of the signer. No account or number is
  -- written as a star.
  pub upvote-eligible :
      (asking answering saving : Env) (receiver_id : AccountId) (id : KudosId)
      (s s' t t' u u' : Contract) (registry account db db' db'' db_id receiver : AccountId)
      (kudos_id : KudosId) (x y z : Payment) (proof : Option Sbts) (request kept : List Chars)
      (answer : Option Value) (prepared written : Value) (deposit : ℕ)
      → ((a : AccountId) → reading.account_text a ≢ any_key)
      → ((n : ℕ) → reading.number_text n ≢ any_key)
      → answering.signer ≡ asking.signer
      → saving.signer ≡ asking.signer
      → upvote_kudos asking receiver_id id s ≡ ok (ask registry account x db receiver kudos_id, s')
      → acquire_kudos_sender reading answering x db receiver kudos_id proof t
        ≡ ok (fetch db' request y db'' kept prepared, t')
      → on_kudos_sender_acquired reading saving y db'' kept prepared answer u
        ≡ ok (save db_id deposit written z, u')
      → (s.running_state ≡ running)
        × (asking.attached_deposit ≡ upvote_kudos_cost)
        × ((s' ≡ s) × (t' ≡ t) × (u' ≡ u))
        × (account ≡ asking.signer)
        × (proof ≢ none)
        × (proof ≢ some [])
        × (receiver_id ≢ asking.signer)
        × SentByOther answer answering.current_account receiver_id id asking.signer
        × (s.external_db_id ≡ some db_id)
        × (deposit ≡ upvote_kudos_cost)
        × (written
            ≡ build_upvote_kudos_request reading answering.current_account asking.signer receiver_id
                id)
        × (z ≡ paid asking)
  upvote-eligible asking answering saving receiver_id id s s' t t' u u' registry account db db' db''
        db_id receiver kudos_id x y z proof request kept answer prepared written deposit accounts
        numbers same same' asked got saved =
      let g = Ensures-of_eq _ _ (upvote-begins asking receiver_id id s) asked in
      let a = Ensures-of_eq _ _ (acquire-fetches answering x db receiver kudos_id proof t) got in
      let w = Ensures-of_eq _ _ (saves-other saving y db'' kept prepared answer u) saved in
      elim a.1 [
        | inl e ↦ absurd (ground (arith, e))
        | inr h ↦ elim w.1 [
          | inl e ↦ absurd (ground (arith, e))
          | inr m ↦ (
            g.1,
            g.3,
            (g.0, a.0, w.0),
            cc (g.4.2),
            h.0,
            h.1,
            g.2,
            subst (SentByOther answer answering.current_account receiver_id id) same' (
                sent_by_other-SentByOther saving answer answering.current_account receiver_id id
                  accounts numbers (cc (m.0, h.2, g.4.2))),
            cc (g.4.1, g.4.2, h.2, m.1),
            cc (g.3, g.4.2, h.2, m.1),
            cc (g.4.2, h.2, m.1, same),
            cc (g.4.2, h.2, m.1),
          )
        ]
      ]
