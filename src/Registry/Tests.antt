-- ===== src/Registry/Tests.antt =====
-- Runs of the registry on a small state, and the theorems at those runs.
use i_am_human.Base.{
  ℕ, zero, suc, ◌+◌, ◌≤◌, ◌<◌, ◌≡◌, ◌≢◌, ◌⊎◌, refl, Bool, true, false, Option, none, some, List, [],
  ◌∷◌, ◌||◌, ◌==◌, not, contains, String, arith, unwrap_or, Result, ok, err, Ensures, is_some,
}
use i_am_human.Near.{AccountId, Env}
use i_am_human.Near.Words.{u64_mod}
use i_am_human.Near.Keys.{ℕ_key, pair_key}
use i_am_human.Near.Tree.{lookup, count, Sorted}
use i_am_human.Sbt.{TokenId, ClassId}
use i_am_human.Registry.{Contract, verified, not_admin}
use i_am_human.Registry.Keys.{IssuerId, token_id, token_key, balance_key, balance_ord}
use i_am_human.Registry.Invariant.{IsValid}
use i_am_human.Registry.Sample.{call_by, face, one_sbt, one_sbt-IsValid, iah_issued}
use i_am_human.Registry.Admin.{
  admin_add_sbt_issuer, change_admin, admin_set_authorized_flaggers, admin_add_authorized_flagger,
  admin_flag_accounts, lists_flagger,
}
use i_am_human.Registry.Admin.Issuers.{IssuersValid, Added, admin_add_sbt_issuer-Added}
use i_am_human.Registry.Admin.Guarded.{
  MayFlag, Flagged, admin-authority, admin_flag_accounts-Flagged,
}
use i_am_human.Registry.Burn.{sbt_burn}
use i_am_human.Registry.Burn.Validity.{sbt_burn-IsValid}
use i_am_human.Registry.Mint.{TokenSpec, mint_spec}
use i_am_human.Registry.Mint.Steps.{total_tokens}
use i_am_human.Registry.Mint.Validity.{mint_spec-IsValid}
use i_am_human.Registry.Renew.{Update, sbt_renew, sbt_update_token_references}
use i_am_human.Registry.Revoke.{sbt_revoke}
use i_am_human.Registry.Renew.Records.{Dated, NoneBanned, sbt_renew-Dated, sbt_revoke-Dated}
use i_am_human.Registry.Renew.References.{Referred, sbt_update_token_references-Referred}
use i_am_human.Registry.Human.{is_human, is_blacklisted, is_human_call_lock}
use i_am_human.Registry.Human.Sound.{AllProve, is_human-Proves}
use i_am_human.Registry.Human.Lock.{Onward, is_human_call_lock-forbids}
use i_am_human.Registry.Transfer.{soul_transfer_up_to, sbt_soul_transfer}
use i_am_human.Registry.Transfer.Halfway.{Halfway}
use i_am_human.Registry.Transfer.Validity.{Transferred, soul_transfer_up_to-Transferred}
use i_am_human.Base.{◌%◌}
use i_am_human.Registry.Invariant.{holder}
use i_am_human.Registry.Query.{sbt_supply_by_owner}
use i_am_human.Registry.Query.Supplies.{class_supply-token}
use i_am_human.Registry.Human.{sbt_mint_iah}
use i_am_human.Registry.Human.Minting.{AllHuman, sbt_mint_iah-AllHuman}
use i_am_human.Registry.Transfer.Guards.{Agree, soul_transfer_up_to-guards}
use i_am_human.Registry.Admin.{admin_unflag_accounts}
use i_am_human.Registry.Admin.Guarded.{Unflagged, admin_unflag_accounts-Unflagged}
use i_am_human.Near.Lookup.{empty, insert}
use i_am_human.Registry.Human.Barred.{soul_transfer_up_to-is_human}

one_sbt-IssuersValid : IssuersValid one_sbt
one_sbt-IssuersValid = record {
  inverse = λ a i. ground arith;
  given = λ a i. ground arith;
  next = omega arith;
}

-- Whether a call succeeded.
abbrev succeeded : {A : Type 0} {S : Type 0} {E : Type 0} → Result E (A × S) → Bool
succeeded (ok r) = true
succeeded (err e) = false

burn_succeeds : succeeded (sbt_burn (call_by 5) 3 (1 ∷ []) one_sbt) ≡ true
unfolding sbt_burn i_am_human.Base.◌>>=◌
burn_succeeds = refl

abbrev two_more : TokenSpec
two_more = (6, face ∷ []) ∷ (8, face ∷ []) ∷ []

mint_succeeds : succeeded (mint_spec (λ _. 0) (call_by 3) 3 two_more one_sbt) ≡ true
unfolding mint_spec i_am_human.Base.◌>>=◌ lookup i_am_human.Near.Tree.insert
    i_am_human.Registry.Tally.tally
mint_succeeds = refl

sbt_burn-IsValid_example : Ensures (λ _ t. IsValid t) (sbt_burn (call_by 5) 3 (1 ∷ []) one_sbt)
sbt_burn-IsValid_example = sbt_burn-IsValid (call_by 5) 3 (1 ∷ []) one_sbt one_sbt-IsValid

room_one_sbt :
    (i : IssuerId) → unwrap_or 0 (one_sbt.next_token_ids i) + total_tokens two_more + 1 < u64_mod
unfolding total_tokens
room_one_sbt i = ground arith

mint_spec-IsValid_example :
    Ensures (λ _ t. IsValid t) (mint_spec (λ _. 0) (call_by 3) 3 two_more one_sbt)
mint_spec-IsValid_example =
    mint_spec-IsValid (λ _. 0) (call_by 3) 3 two_more one_sbt one_sbt-IsValid room_one_sbt

transfer_succeeds : succeeded (soul_transfer_up_to (call_by 5) 7 20 one_sbt) ≡ true
unfolding soul_transfer_up_to i_am_human.Base.◌>>=◌ i_am_human.Near.Tree.iter_from lookup
transfer_succeeds = refl

apart : (call_by 5).predecessor ≢ 7
apart h = omega (arith, h)

no_zero_issuer : (c : ClassId) → lookup (balance_key 5 0 c) one_sbt.balances ≡ none
unfolding lookup
no_zero_issuer c = refl

soul_transfer_up_to-Transferred_example :
    Ensures
      (λ q t. Halfway 5 7 t × (t.banlist 5 ≡ true) × (q.1 ≡ true → Transferred 5 7 one_sbt t))
      (soul_transfer_up_to (call_by 5) 7 20 one_sbt)
soul_transfer_up_to-Transferred_example =
    soul_transfer_up_to-Transferred (call_by 5) 7 20 one_sbt apart one_sbt-IsValid no_zero_issuer
      refl

renew_succeeds : succeeded (sbt_renew (call_by 3) (1 ∷ []) 9000 one_sbt) ≡ true
unfolding sbt_renew i_am_human.Base.◌>>=◌
renew_succeeds = refl

sbt_renew-Dated_example :
    Ensures
      (λ _ t.
        IsValid t
        × ((i : IssuerId) × (one_sbt.sbt_issuers 3 ≡ some i)
            × Dated i 9000 (1 ∷ []) one_sbt t
            × NoneBanned i (1 ∷ []) one_sbt))
      (sbt_renew (call_by 3) (1 ∷ []) 9000 one_sbt)
sbt_renew-Dated_example = sbt_renew-Dated (call_by 3) (1 ∷ []) 9000 one_sbt one_sbt-IsValid

revoke_succeeds : succeeded (sbt_revoke (call_by 3) (1 ∷ []) false one_sbt) ≡ true
unfolding sbt_revoke i_am_human.Base.◌>>=◌
revoke_succeeds = refl

sbt_revoke-Dated_example :
    Ensures
      (λ _ t.
        IsValid t
        × ((i : IssuerId) × (one_sbt.sbt_issuers 3 ≡ some i) × Dated i 1000 (1 ∷ []) one_sbt t))
      (sbt_revoke (call_by 3) (1 ∷ []) false one_sbt)
sbt_revoke-Dated_example = sbt_revoke-Dated (call_by 3) (1 ∷ []) one_sbt one_sbt-IsValid

-- Twice for the token 1.
abbrev linked : List Update
linked = (1, none, none) ∷ (1, some "https://a.b", some (7 ∷ [])) ∷ []

update_succeeds : succeeded (sbt_update_token_references (call_by 3) linked one_sbt) ≡ true
unfolding sbt_update_token_references i_am_human.Base.◌>>=◌
update_succeeds = refl

sbt_update_token_references-Referred_example :
    Ensures
      (λ _ t.
        IsValid t
        × ((i : IssuerId) × (one_sbt.sbt_issuers 3 ≡ some i) × Referred i linked one_sbt t))
      (sbt_update_token_references (call_by 3) linked one_sbt)
sbt_update_token_references-Referred_example =
    sbt_update_token_references-Referred (call_by 3) linked one_sbt one_sbt-IsValid

human_accepted : is_human (call_by 3) 5 one_sbt ≡ ok ((3, 1 ∷ []) ∷ [], one_sbt)
unfolding is_human i_am_human.Base.◌>>=◌ i_am_human.Near.Tree.iter_from
human_accepted = refl

is_human-Proves_example :
    Ensures
      (λ proof t.
        (t ≡ one_sbt)
        × ((proof ≡ [])
            ⊎ ((ids : List TokenId) × (proof ≡ (3, ids) ∷ [])
                × (one_sbt.banlist 5 ≡ false)
                × (is_blacklisted (one_sbt.flagged 5) ≡ false)
                × AllProve (call_by 3) 5 3 one_sbt (1 ∷ []) ids)))
      (is_human (call_by 3) 5 one_sbt)
is_human-Proves_example = is_human-Proves (call_by 3) 5 one_sbt iah_issued one_sbt-IsValid

abbrev any_json : String → Bool
any_json payload = true

lock_succeeds :
    succeeded (is_human_call_lock any_json (call_by 5) 9 "vote" "{}" 100 true one_sbt) ≡ true
unfolding is_human_call_lock i_am_human.Base.◌>>=◌ i_am_human.Near.Tree.iter_from
lock_succeeds = refl

is_human_call_lock-forbids_example :
    Ensures
      (λ p t.
        (lock : ℕ) × (p.locked_until ≡ some lock)
        × (1100 ≤ lock)
        × (0 ≤ lock)
        × ((u : Contract) (later : Env) (r : AccountId)
            → Onward any_json t u
            → later.predecessor ≡ 5
            → later.now ≤ lock
            → Ensures (λ _ _. ⊥) (sbt_soul_transfer later r u)))
      (is_human_call_lock any_json (call_by 5) 9 "vote" "{}" 100 true one_sbt)
is_human_call_lock-forbids_example =
    is_human_call_lock-forbids any_json (call_by 5) 9 "vote" "{}" 100 true one_sbt iah_issued
      one_sbt-IsValid (omega arith) (omega arith)

admin_add_sbt_issuer-Added_example :
    Ensures (λ r t. Added 4 r one_sbt t) (admin_add_sbt_issuer (call_by 1) 4 one_sbt)
admin_add_sbt_issuer-Added_example =
    admin_add_sbt_issuer-Added (call_by 1) 4 one_sbt one_sbt-IssuersValid (omega arith)

admin-authority_example :
    Ensures
      (λ _ t.
        (one_sbt.authority ≡ 1)
        × (t ≡ record one_sbt { authority = 4 })
        × ((later : Env) (b : AccountId) (new : List AccountId)
            → later.predecessor ≢ 4
            → (change_admin later b t ≡ err not_admin)
              × (admin_set_authorized_flaggers later new t ≡ err not_admin)
              × (admin_add_authorized_flagger later b t ≡ err not_admin)))
      (change_admin (call_by 1) 4 one_sbt)
    × Ensures
        (λ _ t.
          (one_sbt.authority ≡ 1)
          × (t ≡ record one_sbt { authorized_flaggers = some (2 ∷ []) })
          × MayFlag (λ b. contains b (2 ∷ [])) t)
        (admin_set_authorized_flaggers (call_by 1) (2 ∷ []) one_sbt)
    × Ensures
        (λ new t.
          (one_sbt.authority ≡ 1)
          × (t ≡ record one_sbt { authorized_flaggers = t.authorized_flaggers })
          × (new ≡ not (lists_flagger 4 one_sbt.authorized_flaggers))
          × ((b : AccountId)
              → lists_flagger b t.authorized_flaggers
                ≡ (b == 4 || lists_flagger b one_sbt.authorized_flaggers))
          × MayFlag (λ b. b == 4 || lists_flagger b one_sbt.authorized_flaggers) t)
        (admin_add_authorized_flagger (call_by 1) 4 one_sbt)
admin-authority_example = admin-authority (call_by 1) 4 (2 ∷ []) one_sbt

admin_flag_accounts-Flagged_example :
    Ensures
      (λ _ t.
        (lists_flagger 2 one_sbt.authorized_flaggers ≡ true) × Flagged verified (5 ∷ []) one_sbt t)
      (admin_flag_accounts (call_by 2) verified (5 ∷ []) one_sbt)
admin_flag_accounts-Flagged_example =
    admin_flag_accounts-Flagged (call_by 2) verified (5 ∷ []) one_sbt

-- Minting for humans: 5 is one.
abbrev for_five : TokenSpec
for_five = (5, record face { class = 2 } ∷ []) ∷ []

mint_iah_succeeds : succeeded (sbt_mint_iah (λ _. 0) (call_by 3) for_five one_sbt) ≡ true
unfolding sbt_mint_iah i_am_human.Base.◌>>=◌ i_am_human.Near.Tree.iter_from lookup
    i_am_human.Registry.Tally.tally
mint_iah_succeeds = refl

room_for_five :
    (i : IssuerId) → unwrap_or 0 (one_sbt.next_token_ids i) + total_tokens for_five + 1 < u64_mod
unfolding total_tokens
room_for_five i = ground arith

sbt_mint_iah-AllHuman_example :
    Ensures
      (λ _ t. AllHuman (call_by 3) one_sbt for_five × IsValid t)
      (sbt_mint_iah (λ _. 0) (call_by 3) for_five one_sbt)
sbt_mint_iah-AllHuman_example =
    sbt_mint_iah-AllHuman (λ _. 0) (call_by 3) for_five one_sbt iah_issued one_sbt-IsValid
      room_for_five

soul_transfer_up_to-guards_example :
    Ensures
      (λ _ _.
        (0 < 1000)
        × (one_sbt.banlist 5 ≡ false)
        × (one_sbt.banlist 7 ≡ false)
        × Agree (one_sbt.flagged 5) (one_sbt.flagged 7))
      (soul_transfer_up_to (call_by 5) 7 20 one_sbt)
soul_transfer_up_to-guards_example = soul_transfer_up_to-guards (call_by 5) 7 20 one_sbt refl

class_supply-token_example :
    ((t : TokenId)
      → holder (one_sbt.issuer_tokens (token_id 1 t)) ≡ some (5, 1)
      → sbt_supply_by_owner 5 3 (some 1) one_sbt ≡ 1)
    × (((t : TokenId) → holder (one_sbt.issuer_tokens (token_id 1 t)) ≢ some (5, 1))
        → sbt_supply_by_owner 5 3 (some 1) one_sbt ≡ 0)
class_supply-token_example = class_supply-token 3 5 1 1 one_sbt one_sbt-IsValid refl refl

-- The account 5 verified.
abbrev flagged_five : Contract
flagged_five = record one_sbt { flagged = insert 5 verified empty }

unflag_succeeds : succeeded (admin_unflag_accounts (call_by 2) (5 ∷ []) flagged_five) ≡ true
unfolding admin_unflag_accounts i_am_human.Base.◌>>=◌
unflag_succeeds = refl

admin_unflag_accounts-Unflagged_example :
    Ensures
      (λ _ t.
        (lists_flagger 2 flagged_five.authorized_flaggers ≡ true)
        × Unflagged (5 ∷ []) flagged_five t)
      (admin_unflag_accounts (call_by 2) (5 ∷ []) flagged_five)
admin_unflag_accounts-Unflagged_example =
    admin_unflag_accounts-Unflagged (call_by 2) (5 ∷ []) flagged_five

soul_transfer_up_to-is_human_example :
    Ensures
      (λ _ t. (later : Env) → is_human later 5 t ≡ ok ([], t))
      (soul_transfer_up_to (call_by 5) 7 20 one_sbt)
soul_transfer_up_to-is_human_example =
    soul_transfer_up_to-is_human (call_by 5) 7 20 one_sbt apart one_sbt-IsValid no_zero_issuer refl
