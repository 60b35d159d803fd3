-- ===== src/Registry/Transfer/Frame.antt =====
-- The parts of `_sbt_soul_transfer` around its loop: `transfer_continuation`, `_transfer_flag` and the
-- bookkeeping at the end (contracts/registry/src/lib.rs).
use i_am_human.Base.{
  ℕ, ◌+◌, ◌≡◌, ◌≢◌, refl, ◌∙◌, Bool, true, false, [], ◌∷◌, ◌||◌, Option, none, some, List,
  if◌then◌else◌, arith, ◌==◌, pure, modify, inl, inr, Bool-cases, ltb, Ensures, Ensures-bind,
  Ensures-gets, Ensures-modify, Ensures-require, Ensures-last, Ensures-pure, Ensures-assoc,
  Ensures-expect, Ensures-mono, Ensures-pure_bind, Ensures-require_last,
}
use i_am_human.Near.{AccountId}
use i_am_human.Near.Keys.{ℕ_key, pair_key}
use i_am_human.Near.Lookup
use i_am_human.Sbt.{TokenId}
use i_am_human.Registry.{Contract, AccountFlag, Panic, Log}
use i_am_human.Registry.Keys.{IssuerId, BalanceKey, token_id, token_key, balance_ord}
use i_am_human.Registry.Rules.{Ensures-assert_not_banned}
use i_am_human.Registry.SameTables.{SameTables, SameTables-refl, SameTables-trans}
use i_am_human.Registry.Transfer.{
  transfer_continuation, start_transfer_with_continuation, transfer_flag, copy_flag,
  finish_transfer, move_each, move_token, move_supply, add_supply,
}
use i_am_human.Registry.Transfer.Batch.{Entries}

-- A transfer that is not resumed starts before the first key and bans the owner.
pub transfer_continuation-fresh :
    (o r : AccountId) (s : Contract)
    → s.ongoing_soul_tx o ≡ none
    → Ensures
        (λ c t. (c ≡ (false, token_id 0 0)) × SameTables s t × (t.banlist o ≡ true))
        (transfer_continuation o r true s)
unfolding transfer_continuation start_transfer_with_continuation
transfer_continuation-fresh o r s fresh = Ensures-gets _ _ _ _ (
    rw fresh (
      Ensures-assoc _ _ _ _ _ (
        Ensures-assert_not_banned _ _ _ _ λ _. Ensures-assoc _ _ _ _ _ (
          Ensures-assoc _ _ _ _ _ (
            Ensures-gets _ _ _ _ (
              Ensures-assoc _ _ _ _ _ (
                Ensures-modify _ _ _ _ (
                  Ensures-assoc _ _ _ _ _ (
                    Ensures-require _ _ _ _ _ λ _. Ensures-modify _ _ _ _ (
                      Ensures-pure_bind _ _ _ _
                        (Ensures-pure _ _ _ _ (refl, tables, ground arith))))))))))))
  where
    tables :
        {b : AccountId → Bool} {l : List Log} → SameTables s (record s { banlist = b; logs = l })
    tables = record {
      owners = refl;
      classes = refl;
      issuers = refl;
      balances = refl;
      tokens = refl;
      next = refl;
    }

-- Flags move without the tables and without the bans.
pub transfer_flag-SameTables :
    (o r : AccountId) (s : Contract)
    → Ensures (λ _ t. SameTables s t × (t.banlist ≡ s.banlist)) (transfer_flag o r s)
unfolding transfer_flag
transfer_flag-SameTables o r s =
    Ensures-gets _ _ _ _ (Ensures-gets _ _ _ _ (go (s.flagged o) (s.flagged r)))
  where
    go :
        (f g : Option AccountFlag)
        → Ensures (λ _ t. SameTables s t × (t.banlist ≡ s.banlist)) (copy_flag r f g s)
    go none g = Ensures-pure _ _ _ _ (SameTables-refl s, refl)
    go (some f) none = Ensures-last _ _ _ _ (
      record {
        owners = refl;
        classes = refl;
        issuers = refl;
        balances = refl;
        tokens = refl;
        next = refl;
      },
      refl,
    )
    go (some f) (some g) = Ensures-require_last _ _ _ _ λ _. (SameTables-refl s, refl)

-- An optional change that leaves the tables and the bans alone.
optional-SameTables :
    (b : Bool) (g : Contract → Contract) (s : Contract)
    → SameTables s (g s) × ((g s).banlist ≡ s.banlist)
    → Ensures {E = Panic}
        (λ _ t. SameTables s t × (t.banlist ≡ s.banlist))
        ((if b then modify g else pure tt) s)
optional-SameTables true g s h = Ensures-last _ _ _ _ h
optional-SameTables false g s h = Ensures-pure _ _ _ _ (SameTables-refl s, refl)

-- The end of a call reports completion only if the batch was not filled.
pub finish_transfer-SameTables :
    (o r : AccountId) (resumed : Bool) (counter limit : ℕ) (batch : Entries) (s : Contract)
    → Ensures
        (λ done t. SameTables s t × (t.banlist ≡ s.banlist) × (done ≡ true → counter ≢ limit))
        (finish_transfer o r resumed counter limit batch s)
unfolding finish_transfer
finish_transfer-SameTables o r resumed counter limit batch s =
    elim (Bool-cases (counter == limit)) [
      | inl full ↦ rw full (
          Ensures-expect _ _ _ _ _ λ last _. Ensures-modify _ _ _ _ (
            Ensures-pure _ _ _ _ (
              record {
                owners = refl;
                classes = refl;
                issuers = refl;
                balances = refl;
                tokens = refl;
                next = refl;
              },
              refl,
              λ e. cc,
            )))
      | inr short ↦ rw short (
          Ensures-bind _ _ _ _ _
            (optional-SameTables resumed _ s (
              record {
                owners = refl;
                classes = refl;
                issuers = refl;
                balances = refl;
                tokens = refl;
                next = refl;
              },
              refl,
            ))
            λ _ u a.
              Ensures-bind _ _ _ _ _
                (optional-SameTables (resumed || ltb 0 counter) _ u (
                  record {
                    owners = refl;
                    classes = refl;
                    issuers = refl;
                    balances = refl;
                    tokens = refl;
                    next = refl;
                  },
                  refl,
                ))
                λ _ t b.
                  Ensures-pure _ _ _ _
                    (SameTables-trans s u t a.0 b.0, b.1 ∙ a.1, λ _. ground arith))
    ]

-- Moving supplies and tokens bans nobody.
move_token-bans :
    (r : AccountId) (k : BalanceKey) (x : TokenId) (s : Contract)
    → Ensures (λ _ t. t.banlist ≡ s.banlist) (move_token r k x s)
unfolding move_token
move_token-bans r k x s = Ensures-gets _ _ _ _ (
    Ensures-modify _ _ _ _ (
      Ensures-require _ _ _ _ _ λ _.
        Ensures-modify _ _ _ _
          (Ensures-gets _ _ _ _ (Ensures-expect _ _ _ _ _ λ td _. Ensures-last _ _ _ _ refl))))

move_supply-bans :
    (o r : AccountId) (same : Bool) (i : IssuerId) (s : Contract)
    → Ensures (λ _ t. t.banlist ≡ s.banlist) ((if same then pure tt else move_supply o r i) s)
unfolding move_supply
move_supply-bans o r true i s = Ensures-pure _ _ _ _ refl
move_supply-bans o r false i s =
    Ensures-gets _ _ _ _
      (Ensures-modify _ _ _ _ (Ensures-last _ _ _ _ (go (s.supply_by_owner (o, i)))))
  where
    go :
        (n : Option ℕ)
        → (add_supply r i n
            (record s { supply_by_owner = Lookup.remove (o, i) s.supply_by_owner })).banlist
          ≡ s.banlist
    go none = refl
    go (some n) = refl

pub move_each-bans :
    (o r : AccountId) (prev : IssuerId) (n : ℕ) (batch : Entries) (s : Contract)
    → Ensures (λ _ t. t.banlist ≡ s.banlist) (move_each o r prev n batch s)
unfolding move_each
move_each-bans o r prev n [] s = Ensures-pure _ _ _ _ refl
move_each-bans o r prev n ((k, x) ∷ m) s = elim (Bool-cases (k.owner == o)) [
  | inl own ↦ rw own (
      Ensures-bind _ _ _ _ _ (move_supply-bans o r (prev == k.issuer_id) k.issuer_id s) λ _ u a.
        Ensures-bind _ _ _ _ _ (move_token-bans r k x u) λ _ v b.
          Ensures-mono _ _ _ (λ _ w c. c ∙ b ∙ a) (move_each-bans o r k.issuer_id (n + 1) m v))
  | inr other ↦ rw other (Ensures-pure _ _ _ _ refl)
]
