-- ===== src/Oracle/Admin.antt =====
-- The oracle's operations for admins (contracts/oracle/src/lib.rs).
use i_am_human.Base.{
  ℕ, ◌-◌, Bool, ◌||◌, List, [], ◌∷◌, Option, none, some, map, length, ltb, leb, if◌then◌else◌,
  ◌>>=◌, ◌>>◌, pure, gets, modify, require, ◌==◌ as nat_eq,
}
use i_am_human.Near.{AccountId, Env}
use i_am_human.Near.Words.{mul_u64}
use i_am_human.Near.Keys.{ℕ_key}
use i_am_human.Near.Text.{Chars}
use i_am_human.Near.Lookup.{add, drop, insert}
use i_am_human.Sbt.{TokenId, ClassId, ClassMetadata, TokenMetadata}
use i_am_human.Cost.{mint_deposit, mint_gas, calculate_mint_gas}
use i_am_human.Oracle.{
  bad_request, class_not_found, not_admin, wrong_class, insufficient_deposit, Call, Platform,
}
use i_am_human.Oracle.Account.{pubkey_from_b64}
use i_am_human.Oracle.Mint.{class_fv_sbt, class_kyc_sbt, token_metadata}

unfoldable pub assert_admin : Env → Call (Unit {0})
assert_admin env = do is_admin ← gets (λ s. s.admins env.predecessor); require not_admin is_admin

-- The promise to `registry.sbt_revoke`: its arguments and gas.
pub record RevokePromise : Type 0 where
  pub tokens : List TokenId
  pub burn : Bool
  pub gas : ℕ

unfoldable pub sbt_revoke : Env → List TokenId → Bool → Call RevokePromise
unfolding assert_admin
sbt_revoke env tokens burn = do
  assert_admin env
  pure (record { tokens = tokens; burn = burn; gas = mul_u64 mint_gas (length tokens) })

module _ (platform : Platform) where
  unfoldable pub admin_change_authority : Env → Chars → Call (Unit {0})
  unfolding assert_admin pubkey_from_b64
  admin_change_authority env authority = do
    assert_admin env
    key ← pubkey_from_b64 platform authority
    modify (λ s. record s { authority_pubkey = key })

unfoldable pub add_admin : Env → AccountId → Call (Unit {0})
unfolding assert_admin
add_admin env admin = do assert_admin env; modify (λ s. record s { admins = add admin s.admins })

unfoldable pub remove_admin : Env → AccountId → Call (Unit {0})
unfolding assert_admin
remove_admin env admin = do
  assert_admin env
  modify (λ s. record s { admins = drop admin s.admins })

unfoldable pub set_class_metadata : Env → ClassId → ClassMetadata → Call (Unit {0})
unfolding assert_admin
set_class_metadata env class metadata = do
  assert_admin env
  require (bad_request class_not_found) (nat_eq class 1 || nat_eq class 2)
  modify (λ s. record s { class_metadata = insert class metadata s.class_metadata })

-- The promises of `admin_mint`: the transfer back to the caller, and the registry's `sbt_mint`.
pub record AdminMint : Type 0 where
  pub refund : Option ℕ
  pub token_spec : List (AccountId × List TokenMetadata)
  pub deposit : ℕ
  pub gas : ℕ

unfoldable pub admin_mint : Env → List (AccountId × ℕ) → ClassId → Call AdminMint
unfolding assert_admin
admin_mint env mint_data class = do
  assert_admin env
  let required_deposit = mint_deposit (length mint_data)
  require (insufficient_deposit required_deposit) (leb required_deposit env.attached_deposit)
  require wrong_class (nat_eq class class_fv_sbt || nat_eq class class_kyc_sbt)
  pure (record {
    refund =
        if ltb required_deposit env.attached_deposit
        then some (env.attached_deposit - required_deposit)
        else none;
    token_spec = map (λ d. (d.0, token_metadata class env.now d.1 ∷ [])) mint_data;
    deposit = required_deposit;
    gas = calculate_mint_gas (length mint_data);
  })
