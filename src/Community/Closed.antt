-- ===== src/Community/Closed.antt =====
-- The closed community contract (contracts/community-sbt/src): its state, of lib.rs and storage.rs,
-- and its operations. A memo is only logged, or not read.
pub mod Issuing
pub mod Classes
pub mod Management
pub mod Minters
use i_am_human.Base.{
  ℕ, ◌+◌, Bool, true, false, not, List, [], ◌∷◌, ◌++◌, Option, none, some, contains, is_empty, leb,
  ltb, if◌then◌else◌, Result, ok, err, Tx, ◌>>=◌, ◌>>◌, pure, gets, modify, require, expect,
}
use i_am_human.Near.{AccountId, Env}
use i_am_human.Near.Words.{add_u64}
use i_am_human.Near.Keys.{ℕ_key}
use i_am_human.Near.Lookup.{LookupMap, empty, insert}
use i_am_human.Sbt.{TokenId, ClassId, TokenMetadata, ContractMetadata, ClassMetadata}
use i_am_human.Community.{
  CommunityError, not_minter, class_not_enabled, not_admin, empty_list, unknown_class,
  ttl_too_short, no_admins, not_implemented, min_ttl, MintCall, RenewCall, RevokeCall, RenewPromise,
  RevokePromise,
}
use i_am_human.Community.Vectors.{◌!=◌, position, swap_remove}
use i_am_human.Community.Mint.{mint_many}
use i_am_human.Community.Renew.{renew_promise, renew_callback, revoke_promise, revoke_callback}

pub record ClassMinters : Type 0 where
  pub requires_iah : Bool
  pub minters : List AccountId
  pub max_ttl : ℕ

-- `struct Contract`; a `LazyOption` that is set is its value.
pub record Contract : Type 0 where
  pub admins : Option (List AccountId)
  pub classes : LookupMap ClassId ClassMinters
  pub next_class : ClassId
  pub registry : AccountId
  pub metadata : ContractMetadata
  pub class_metadata : LookupMap ClassId ClassMetadata

abbrev pub Call : Type 0 → Type 0
Call A = Tx CommunityError Contract A

unfoldable pub new : AccountId → AccountId → ContractMetadata → Contract
new registry admin metadata = record {
  admins = some (admin ∷ []);
  classes = empty;
  next_class = 1;
  registry = registry;
  metadata = metadata;
  class_metadata = empty;
}

abbrev pub class_minter : Contract → ClassId → Option ClassMinters
class_minter s class = s.classes class

-- What the callbacks read of it: the minters, and `get_ttl`.
abbrev pub minters_ttl : Contract → ClassId → Option (List AccountId × ℕ)
minters_ttl s class = elim (class_minter s class) [
  | none ↦ none
  | some cm ↦ some (cm.minters, cm.max_ttl)
]

unfoldable pub class_info_minter : Env → Contract → ClassId → Result CommunityError (Bool × ℕ)
class_info_minter env s class = elim (class_minter s class) [
  | none ↦ err class_not_enabled
  | some cm ↦
      (if contains env.predecessor cm.minters
        then ok (cm.requires_iah, cm.max_ttl)
        else err not_minter)
]

unfoldable pub sbt_mint_many : Env → List (AccountId × List TokenMetadata) → Call MintCall
unfolding mint_many class_info_minter
sbt_mint_many env token_spec s = mint_many (class_info_minter env s) env token_spec s

unfoldable pub sbt_mint : Env → AccountId → TokenMetadata → Call MintCall
unfolding sbt_mint_many
sbt_mint env receiver metadata = sbt_mint_many env ((receiver, metadata ∷ []) ∷ [])

unfoldable pub sbt_renew : Env → List TokenId → ℕ → Call RenewPromise
unfolding renew_promise
sbt_renew = renew_promise

unfoldable pub on_sbt_renew_callback :
    Env → AccountId → List TokenId → ℕ → Option (List (Option ClassId)) → Call RenewCall
unfolding renew_callback
on_sbt_renew_callback env caller tokens ttl token_classes s =
    renew_callback (minters_ttl s) env caller tokens ttl token_classes s

unfoldable pub sbt_revoke : Env → List TokenId → Bool → Call RevokePromise
unfolding revoke_promise
sbt_revoke = revoke_promise

unfoldable pub on_sbt_revoke_callback :
    AccountId → List TokenId → Bool → Option (List (Option ClassId)) → Call RevokeCall
unfolding revoke_callback
on_sbt_revoke_callback caller tokens burn token_classes s =
    revoke_callback (minters_ttl s) caller tokens burn token_classes s

unfoldable pub assert_admin : Env → Call (Unit {0})
assert_admin env = do
  o ← gets (λ s. s.admins)
  admins ← expect no_admins o
  require not_admin (contains env.predecessor admins)

unfoldable pub revoke_for : Env → List AccountId → Call (Unit {0})
unfolding assert_admin
revoke_for env accounts = do
  assert_admin env
  require empty_list (not (is_empty accounts))
  expect not_implemented none

-- `self.classes.get(&class).expect(..)`
abbrev get_class : ClassId → Call ClassMinters
get_class class = gets (λ s. s.classes class) >>= expect unknown_class

-- `self.classes.insert(&class, &c)`
abbrev put_class : ClassId → ClassMinters → Call (Unit {0})
put_class class c = modify (λ s. record s { classes = insert class c s.classes })

unfoldable pub set_requires_iah : Env → ClassId → Bool → Call (Unit {0})
unfolding assert_admin
set_requires_iah env class requires_iah = do
  assert_admin env
  c ← get_class class
  if c.requires_iah != requires_iah
      then put_class class (record c { requires_iah = requires_iah })
      else pure tt

unfoldable pub set_max_ttl : Env → ClassId → ℕ → Call (Unit {0})
unfolding assert_admin
set_max_ttl env class max_ttl = do
  assert_admin env
  cm ← get_class class
  put_class class (record cm { max_ttl = max_ttl })

unfoldable pub set_sbt_class_metadata : Env → ClassId → ClassMetadata → Call (Unit {0})
unfolding assert_admin
set_sbt_class_metadata env class metadata = do
  assert_admin env
  next_class ← gets (λ s. s.next_class)
  require unknown_class (ltb class next_class)
  modify (λ s. record s { class_metadata = insert class metadata s.class_metadata })

unfoldable pub enable_next_class : Env → Bool → AccountId → ℕ → ClassMetadata → Call ClassId
unfolding assert_admin
enable_next_class env requires_iah minter max_ttl metadata = do
  assert_admin env
  require ttl_too_short (leb min_ttl max_ttl)
  cls ← gets (λ s. s.next_class)
  modify (λ s. record s { next_class = add_u64 s.next_class 1 })
  put_class cls (record { requires_iah = requires_iah; minters = minter ∷ []; max_ttl = max_ttl })
  modify (λ s. record s { class_metadata = insert cls metadata s.class_metadata })
  pure cls

unfoldable pub authorize : Env → ClassId → AccountId → Call (Unit {0})
unfolding assert_admin
authorize env class minter = do
  assert_admin env
  c ← get_class class
  if not (contains minter c.minters)
      then put_class class (record c { minters = c.minters ++ minter ∷ [] })
      else pure tt

unfoldable pub unauthorize : Env → ClassId → AccountId → Call (Unit {0})
unfolding assert_admin
unauthorize env class minter = do
  assert_admin env
  c ← get_class class
  elim (position minter c.minters) [
    | none ↦ pure tt
    | some idx ↦ put_class class (record c { minters = swap_remove idx c.minters })
  ]

unfoldable pub set_admin_list : Env → List AccountId → Call (Unit {0})
unfolding assert_admin
set_admin_list env new_admin_list = do
  assert_admin env
  modify (λ s. record s { admins = some new_admin_list })

unfoldable pub update_metadata : Env → ContractMetadata → Call (Unit {0})
unfolding assert_admin
update_metadata env metadata = do assert_admin env; modify (λ s. record s { metadata = metadata })
