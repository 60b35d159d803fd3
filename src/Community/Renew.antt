-- ===== src/Community/Renew.antt =====
-- `sbt_renew`, `sbt_revoke` and their callbacks (contracts/community-sbt/src/lib.rs), with the
-- minters of a class and its longest time to live as a parameter. A memo is only logged.
use i_am_human.Base.{
  ℕ, Bool, not, List, [], ◌∷◌, Option, none, some, is_empty, contains, leb, Tx, ◌>>=◌, ◌>>◌, pure,
  gets, modify, require, expect, attempt,
}
use i_am_human.Near.{AccountId, Env}
use i_am_human.Near.Words.{add_u64}
use i_am_human.Near.Keys.{ℕ_key}
use i_am_human.Near.Lookup.{LookupMap, empty, insert}
use i_am_human.Sbt.{TokenId, ClassId}
use i_am_human.Community.{
  CommunityError, empty_list, classes_failed, token_not_found, unknown_class, caller_not_minter,
  ttl_too_long, RenewCall, RevokeCall, RenewPromise, RevokePromise,
}

-- `cached_class_info`, and `cached_class_minters` with the minters only.
abbrev pub Cached : Type 0 → Type 0
Cached V = LookupMap ClassId V

module _ {S : Type 0} where
  unfoldable pub assert_minter : AccountId → List AccountId → Tx CommunityError S (Unit {0})
  assert_minter caller minters = require caller_not_minter (contains caller minters)

  unfoldable pub assert_ttl : ℕ → ℕ → Tx CommunityError S (Unit {0})
  assert_ttl ttl max_ttl = require ttl_too_long (leb ttl max_ttl)

-- What `class_minter` answers: the minters of the class and its `max_ttl`.
module _ (class_minter : ClassId → Option (List AccountId × ℕ)) (caller : AccountId) where
  -- The two arms of the `if` in the loop: the class's longest time to live.
  unfoldable pub checked_ttl :
      ClassId → Option (List AccountId × ℕ) → Tx CommunityError (Cached (List AccountId × ℕ)) ℕ
  unfolding assert_minter
  checked_ttl class_id (some cached) = do assert_minter caller cached.0; pure cached.1
  checked_ttl class_id none = do
    info ← expect unknown_class (class_minter class_id)
    assert_minter caller info.0
    modify (insert class_id info)
    pure info.1

  unfoldable pub check_renewals :
      ℕ → List (Option ClassId) → Tx CommunityError (Cached (List AccountId × ℕ)) (Unit {0})
  unfolding checked_ttl assert_ttl
  check_renewals ttl [] = pure tt
  check_renewals ttl (token_class ∷ ts) = do
    class_id ← expect token_not_found token_class
    cached ← gets (λ l. l class_id)
    max_ttl ← checked_ttl class_id cached
    assert_ttl ttl max_ttl
    check_renewals ttl ts

  unfoldable pub check_minter :
      ClassId → Option (List AccountId) → Tx CommunityError (Cached (List AccountId)) (Unit {0})
  unfolding assert_minter
  check_minter class_id (some cached) = assert_minter caller cached
  check_minter class_id none = do
    info ← expect unknown_class (class_minter class_id)
    assert_minter caller info.0
    modify (insert class_id info.0)

  unfoldable pub check_revocations :
      List (Option ClassId) → Tx CommunityError (Cached (List AccountId)) (Unit {0})
  unfolding check_minter
  check_revocations [] = pure tt
  check_revocations (token_class ∷ ts) = do
    class_id ← expect token_not_found token_class
    cached ← gets (λ l. l class_id)
    check_minter class_id cached
    check_revocations ts

-- The loops run on their own variables; the contract `S` does not change. `token_classes` is the
-- registry's answer, `none` if its call failed.
module _ {S : Type 0} where
  unfoldable pub renew_promise : Env → List TokenId → ℕ → Tx CommunityError S RenewPromise
  renew_promise env tokens ttl = do
    require empty_list (not (is_empty tokens))
    pure (record {
      issuer = env.current_account;
      caller = env.predecessor;
      tokens = tokens;
      ttl = ttl;
    })

  unfoldable pub renew_callback :
      (ClassId → Option (List AccountId × ℕ))
      → Env
      → AccountId
      → List TokenId
      → ℕ
      → Option (List (Option ClassId))
      → Tx CommunityError S RenewCall
  unfolding check_renewals
  renew_callback class_minter env caller tokens ttl token_classes = do
    ts ← expect classes_failed token_classes
    attempt (check_renewals class_minter caller ttl ts empty)
    pure (record { tokens = tokens; expires_at = add_u64 env.now ttl })

  unfoldable pub revoke_promise : Env → List TokenId → Bool → Tx CommunityError S RevokePromise
  revoke_promise env tokens burn = do
    require empty_list (not (is_empty tokens))
    pure (record {
      issuer = env.current_account;
      caller = env.predecessor;
      tokens = tokens;
      burn = burn;
    })

  unfoldable pub revoke_callback :
      (ClassId → Option (List AccountId × ℕ))
      → AccountId
      → List TokenId
      → Bool
      → Option (List (Option ClassId))
      → Tx CommunityError S RevokeCall
  unfolding check_revocations
  revoke_callback class_minter caller tokens burn token_classes = do
    ts ← expect classes_failed token_classes
    attempt (check_revocations class_minter caller ts empty)
    pure (record { tokens = tokens; burn = burn })
