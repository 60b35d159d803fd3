-- ===== src/Clients/Ubi.antt =====
-- The basic income (contracts/ubi/src/lib.rs). Times are in seconds.
pub mod Daily
use i_am_human.Base.{
  ℕ, ◌*◌, ◌/◌, Bool, true, false, Option, none, some, ltb, if◌then◌else◌, Tx, ◌>>=◌, ◌>>◌, pure,
  gets, modify, require, expect,
}
use i_am_human.Near.{AccountId, Env}
use i_am_human.Near.Words.{add_u64, sub_u64}
use i_am_human.Near.Keys.{ℕ_key}
use i_am_human.Near.Lookup.{LookupMap, empty, insert}

-- `DAY`
abbrev pub day : ℕ
day = 3600 * 24

-- `TTL`
abbrev pub ttl : ℕ
ttl = day * 100

pub record UbiCheck : Type 0 where
  pub last_claim : ℕ
  pub expires_at : ℕ

-- The panics.
pub data UbiError : Type 0 where
  not_registered proof_expired already_claimed : UbiError

pub record Contract : Type 0 where
  pub class : AccountId
  pub emission : ℕ
  pub humans : LookupMap AccountId UbiCheck

abbrev pub Call : Type 0 → Type 0
Call A = Tx UbiError Contract A

unfoldable pub new : AccountId → ℕ → Contract
new human_class emission = record { class = human_class; emission = emission; humans = empty }

-- The promise: `is_qualified` of the class for the user, then the callback for the user.
unfoldable pub register : Env → Call (AccountId × AccountId)
register env = do class ← gets (λ s. s.class); pure (class, env.predecessor)

-- The transfer: to whom, and how much.
unfoldable pub claim : Env → Call (AccountId × ℕ)
claim env = do
  o ← gets (λ s. s.humans env.predecessor)
  check ← expect not_registered o
  require proof_expired (ltb (env.now / 1000) check.expires_at)
  require already_claimed (ltb (add_u64 check.last_claim day) (env.now / 1000))
  modify (λ s. record s {
    humans = insert env.predecessor (record check { last_claim = env.now / 1000 }) s.humans;
  })
  emission ← gets (λ s. s.emission)
  pure (env.predecessor, emission)

-- `value` is the class's answer, `none` if its call failed or did not answer with a Boolean.
unfoldable pub register_callback : Env → AccountId → Option Bool → Call Bool
register_callback env account none = pure false
register_callback env account (some false) = pure false
register_callback env account (some true) = do
  modify (λ s. record s {
    humans =
        insert account
          (record {
            last_claim = sub_u64 (sub_u64 (env.now / 1000) day) 1;
            expires_at = add_u64 (env.now / 1000) ttl;
          })
          s.humans;
  })
  pure true
