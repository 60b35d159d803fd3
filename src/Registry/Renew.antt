-- ===== src/Registry/Renew.antt =====
-- Renewal and new references: `_sbt_renew` and `sbt_update_token_references`
-- (contracts/registry/src/lib.rs, registry.rs).
pub mod Validity
pub mod Records
pub mod References
use i_am_human.Base.{ℕ, Option, some, List, [], ◌∷◌, String, map, ◌>>=◌, ◌>>◌, pure, gets, modify}
use i_am_human.Near.{AccountId, Env}
use i_am_human.Sbt.{TokenId, TokenData, TokenMetadata, v1, to_v1, renew, token_reference}
use i_am_human.Registry.{Contract, Call, emit, nep393}
use i_am_human.Registry.Keys.{IssuerId}
use i_am_human.Registry.Admin.{assert_issuer, assert_not_banned}
use i_am_human.Registry.Tables.{get_token, put_token}

abbrev pub set_expiry : ℕ → TokenData → TokenData
set_expiry time t = record t {
  metadata = v1 (let m = to_v1 t.metadata in record m { expires_at = some time });
}

unfoldable pub renew_each : IssuerId → ℕ → List TokenId → Call (Unit {0})
unfolding get_token assert_not_banned
renew_each issuer_id expires_at [] = pure tt
renew_each issuer_id expires_at (token ∷ tokens) = do
  t ← get_token issuer_id token
  assert_not_banned t.owner
  modify (put_token issuer_id token (set_expiry expires_at t))
  renew_each issuer_id expires_at tokens

unfoldable pub sbt_renew : Env → List TokenId → ℕ → Call (Unit {0})
unfolding assert_issuer renew_each
sbt_renew env tokens expires_at = do
  issuer_id ← assert_issuer env.predecessor
  renew_each issuer_id expires_at tokens
  emit (nep393 (renew env.predecessor tokens))

-- A token, its reference and the reference's hash.
abbrev pub Update : Type 0
Update = TokenId × Option String × Option (List ℕ)

abbrev pub set_reference : Option String → Option (List ℕ) → TokenData → TokenData
set_reference reference hash t = record t {
  metadata =
      v1 (let m = to_v1 t.metadata in record m { reference = reference; reference_hash = hash });
}

unfoldable pub update_each : IssuerId → List Update → Call (Unit {0})
unfolding get_token
update_each issuer_id [] = pure tt
update_each issuer_id ((tid, reference, hash) ∷ updates) = do
  t ← get_token issuer_id tid
  modify (put_token issuer_id tid (set_reference reference hash t))
  update_each issuer_id updates

unfoldable pub sbt_update_token_references : Env → List Update → Call (Unit {0})
unfolding assert_issuer update_each
sbt_update_token_references env updates = do
  issuer_id ← assert_issuer env.predecessor
  update_each issuer_id updates
  emit (nep393 (token_reference env.predecessor (map (λ u. u.0) updates)))
