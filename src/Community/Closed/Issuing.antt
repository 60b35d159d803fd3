-- ===== src/Community/Closed/Issuing.antt =====
-- Minting and renewing by the minters of the closed community contract
-- (contracts/community-sbt/src/lib.rs).
use i_am_human.Base.{ℕ, ◌≡◌, Bool, ◌&&◌, List, Option, SucceedsIf}
use i_am_human.Near.{AccountId, Env}
use i_am_human.Near.Words.{add_u64}
use i_am_human.Sbt.{TokenId, ClassId, TokenMetadata}
use i_am_human.Community.Loops.{all_allowed, tokens_of, is_paid, mint_of, mint_many-ok}
use i_am_human.Community.Checks.{
  answered, all_renewable, all_minted, renew_callback-ok, revoke_callback-ok,
}
use i_am_human.Community.Closed.{
  Contract, class_info_minter, minters_ttl, sbt_mint_many, on_sbt_renew_callback,
  on_sbt_revoke_callback,
}

-- `sbt_mint_many` succeeds exactly if the caller is a minter of the enabled class of every token
-- and the attached deposit pays for the tokens. Then the registry is called with every token issued
-- now and expiring after its class's `max_ttl` (modulo 2 ^ 64), whatever the caller asked for, by
-- the call that checks for humanity if one of the classes requires it, with the whole deposit; the
-- contract does not change.
pub sbt_mint_many-exact :
    (env : Env) (spec : List (AccountId × List TokenMetadata)) (s : Contract)
    → SucceedsIf
        (all_allowed (class_info_minter env s) (tokens_of spec) && is_paid env spec)
        (λ p t. (p ≡ mint_of (class_info_minter env s) env spec) × (t ≡ s))
        (sbt_mint_many env spec s)
unfolding sbt_mint_many
sbt_mint_many-exact env spec s = mint_many-ok (class_info_minter env s) env spec s

-- The callback of `sbt_renew` succeeds exactly if the registry's answer has a class for every
-- token, the caller is a minter of each and `ttl` is at most the `max_ttl` of each; the tokens are
-- renewed to `now + ttl` (modulo 2 ^ 64). The callback of `sbt_revoke` succeeds exactly if the
-- answer has a class for every token and the caller is a minter of each.
pub sbt_callbacks-exact :
    (env : Env) (caller : AccountId) (tokens : List TokenId) (ttl : ℕ) (burn : Bool)
    (answer : Option (List (Option ClassId))) (s : Contract)
    → SucceedsIf
        (answered (all_renewable (minters_ttl s) caller ttl) answer)
        (λ p t. (p ≡ record { tokens = tokens; expires_at = add_u64 env.now ttl }) × (t ≡ s))
        (on_sbt_renew_callback env caller tokens ttl answer s)
      × SucceedsIf
          (answered (all_minted (minters_ttl s) caller) answer)
          (λ p t. (p ≡ record { tokens = tokens; burn = burn }) × (t ≡ s))
          (on_sbt_revoke_callback caller tokens burn answer s)
unfolding on_sbt_renew_callback on_sbt_revoke_callback
sbt_callbacks-exact env caller tokens ttl burn answer s = (
  renew_callback-ok (minters_ttl s) env caller tokens ttl answer s,
  revoke_callback-ok (minters_ttl s) caller tokens burn answer s,
)
