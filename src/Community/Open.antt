-- ===== src/Community/Open.antt =====
-- The open community contract (contracts/community-open/src): its state, of lib.rs and storage.rs,
-- and its operations. A memo is only logged, or not read.
pub mod Minters
use i_am_human.Base.{
  ℕ, Bool, true, false, not, ◌||◌, List, [], ◌∷◌, ◌++◌, Option, none, some, contains, is_empty, leb,
  if◌then◌else◌, Result, ok, err, Tx, ◌>>=◌, ◌>>◌, pure, gets, modify, require, expect, attempt,
  ◌==◌ as nat_eq,
}
use i_am_human.Near.{AccountId, Env}
use i_am_human.Near.Words.{add_u64}
use i_am_human.Near.Keys.{ℕ_key}
use i_am_human.Near.Lookup.{LookupMap, empty, insert}
use i_am_human.Sbt.{TokenId, ClassId, TokenMetadata, ContractMetadata, ClassMetadata}
use i_am_human.Community.{
  CommunityError, not_minter, not_admin, class_not_found, empty_list, ttl_too_short,
  not_implemented, min_ttl, MintCall, RenewCall, RevokeCall, RenewPromise, RevokePromise,
}
use i_am_human.Community.Vectors.{◌!=◌, position, swap_remove}
use i_am_human.Community.Mint.{mint_many}
use i_am_human.Community.Renew.{renew_promise, renew_callback, revoke_promise, revoke_callback}

pub record ClassMinters : Type 0 where
  pub requires_iah : Bool
  pub admins : List AccountId
  pub minters : List AccountId
  pub max_ttl : ℕ

-- `struct Contract`; a `LazyOption` that is set is its value.
pub record Contract : Type 0 where
  pub classes : LookupMap ClassId ClassMinters
  pub next_class : ClassId
  pub registry : AccountId
  pub metadata : ContractMetadata
  pub class_metadata : LookupMap ClassId ClassMetadata
  pub registration_cost : ℕ

abbrev pub Call : Type 0 → Type 0
Call A = Tx CommunityError Contract A

unfoldable pub new : AccountId → ContractMetadata → Contract
new registry metadata = record {
  classes = empty;
  next_class = 1;
  registry = registry;
  metadata = metadata;
  class_metadata = empty;
  registration_cost = 100;
}

abbrev pub class_minter : Contract → ClassId → Option ClassMinters
class_minter s class = s.classes class

-- What the callbacks read of it: the minters, and `get_ttl`.
abbrev pub minters_ttl : Contract → ClassId → Option (List AccountId × ℕ)
minters_ttl s class = elim (class_minter s class) [
  | none ↦ none
  | some cm ↦ some (cm.minters, cm.max_ttl)
]

unfoldable pub class_info_admin : Env → Contract → ClassId → Result CommunityError ClassMinters
class_info_admin env s class = elim (class_minter s class) [
  | none ↦ err class_not_found
  | some cm ↦ (if contains env.predecessor cm.admins then ok cm else err not_admin)
]

unfoldable pub class_info_minter : Env → Contract → ClassId → Result CommunityError (Bool × ℕ)
class_info_minter env s class = elim (class_minter s class) [
  | none ↦ err class_not_found
  | some cm ↦
      (if contains env.predecessor cm.minters || contains env.predecessor cm.admins
        then ok (cm.requires_iah, cm.max_ttl)
        else err not_minter)
]

unfoldable pub sbt_mint_many : Env → List (AccountId × List TokenMetadata) → Call MintCall
unfolding mint_many class_info_minter
sbt_mint_many env token_spec s = mint_many (class_info_minter env s) env token_spec s

unfoldable pub sbt_mint : Env → AccountId → TokenMetadata → Call MintCall
unfolding sbt_mint_many
sbt_mint env receiver metadata = sbt_mint_many env ((receiver, metadata ∷ []) ∷ [])

unfoldable pub sbt_renew : Env → List TokenId → ℕ → Call RenewPromise
unfolding renew_promise
sbt_renew = renew_promise

unfoldable pub on_sbt_renew_callback :
    Env → AccountId → List TokenId → ℕ → Option (List (Option ClassId)) → Call RenewCall
unfolding renew_callback
on_sbt_renew_callback env caller tokens ttl token_classes s =
    renew_callback (minters_ttl s) env caller tokens ttl token_classes s

unfoldable pub sbt_revoke : Env → List TokenId → Bool → Call RevokePromise
unfolding revoke_promise
sbt_revoke = revoke_promise

unfoldable pub on_sbt_revoke_callback :
    AccountId → List TokenId → Bool → Option (List (Option ClassId)) → Call RevokeCall
unfolding revoke_callback
on_sbt_revoke_callback caller tokens burn token_classes s =
    revoke_callback (minters_ttl s) caller tokens burn token_classes s

unfoldable pub revoke_for : List AccountId → Call (Unit {0})
revoke_for accounts = do require empty_list (not (is_empty accounts)); expect not_implemented none

-- `self.class_info_admin(class)?`
abbrev admin_class : Env → ClassId → Call ClassMinters
admin_class env class = gets (λ s. class_info_admin env s class) >>= attempt

-- `self.classes.insert(&class, &c)`
abbrev put_class : ClassId → ClassMinters → Call (Unit {0})
put_class class c = modify (λ s. record s { classes = insert class c s.classes })

unfoldable pub set_requires_iah : Env → ClassId → Bool → Call (Unit {0})
unfolding class_info_admin
set_requires_iah env class requires_iah = do
  c ← admin_class env class
  if c.requires_iah != requires_iah
      then put_class class (record c { requires_iah = requires_iah })
      else pure tt

unfoldable pub set_max_ttl : Env → ClassId → ℕ → Call (Unit {0})
unfolding class_info_admin
set_max_ttl env class max_ttl = do
  c ← admin_class env class
  put_class class (record c { max_ttl = max_ttl })

unfoldable pub set_sbt_class_metadata : Env → ClassId → ClassMetadata → Call (Unit {0})
unfolding class_info_admin
set_sbt_class_metadata env class metadata = do
  admin_class env class
  modify (λ s. record s { class_metadata = insert class metadata s.class_metadata })

-- The second guard, whose message is about the deposit, is the first one again.
unfoldable pub acquire_next_class : Env → Bool → List AccountId → ℕ → ClassMetadata → Call ClassId
acquire_next_class env requires_iah minters max_ttl metadata = do
  require ttl_too_short (leb min_ttl max_ttl)
  require ttl_too_short (leb min_ttl max_ttl)
  cls ← gets (λ s. s.next_class)
  modify (λ s. record s { next_class = add_u64 s.next_class 1 })
  put_class cls (record {
    requires_iah = requires_iah;
    admins = env.predecessor ∷ [];
    minters = minters;
    max_ttl = max_ttl;
  })
  modify (λ s. record s { class_metadata = insert cls metadata s.class_metadata })
  pure cls

-- The loop of `add_minters`: the minters of the class, and `ok`.
abbrev pub Listing : Type 0
Listing = List AccountId × Bool

unfoldable pub add_one : AccountId → Listing → Listing
add_one m st = if not (contains m st.0) then (st.0 ++ m ∷ [], true) else st

unfoldable pub add_each : List AccountId → Listing → Listing
unfolding add_one
add_each [] st = st
add_each (m ∷ ms) st = add_each ms (add_one m st)

unfoldable pub add_minters : Env → ClassId → List AccountId → Call (Unit {0})
unfolding class_info_admin add_each
add_minters env class minters = do
  c ← admin_class env class
  if (add_each minters (c.minters, false)).1
      then put_class class (record c { minters = (add_each minters (c.minters, false)).0 })
      else pure tt

-- The loop of `remove_minters`, likewise.
unfoldable pub remove_one : AccountId → Listing → Listing
remove_one m st = elim (position m st.0) [ none ↦ st | some idx ↦ (swap_remove idx st.0, true) ]

unfoldable pub remove_each : List AccountId → Listing → Listing
unfolding remove_one
remove_each [] st = st
remove_each (m ∷ ms) st = remove_each ms (remove_one m st)

unfoldable pub remove_minters : Env → ClassId → List AccountId → Call (Unit {0})
unfolding class_info_admin remove_each
remove_minters env class minters = do
  c ← admin_class env class
  if (remove_each minters (c.minters, false)).1
      then put_class class (record c { minters = (remove_each minters (c.minters, false)).0 })
      else pure tt

-- `#[private]`: the contract's own account calls it.
unfoldable pub update_metadata : Env → ContractMetadata → Call (Unit {0})
update_metadata env metadata = do
  require not_admin (nat_eq env.predecessor env.current_account)
  modify (λ s. record s { metadata = metadata })
