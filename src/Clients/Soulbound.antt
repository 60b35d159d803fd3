-- ===== src/Clients/Soulbound.antt =====
-- The class that qualifies accounts by a number of SBTs (contracts/soulbound-class/src/lib.rs).
use i_am_human.Base.{ℕ, Bool, false, Option, none, some, leb}
use i_am_human.Near.{AccountId}

pub record Contract : Type 0 where
  pub required_sbt : AccountId
  pub min_amount : ℕ

unfoldable pub new : AccountId → ℕ → Contract
new required_sbt min_amount = record { required_sbt = required_sbt; min_amount = min_amount }

-- The promise: `sbt_supply_by_owner` of the required contract for the account, then the callback.
unfoldable pub is_qualified : AccountId → Contract → AccountId × AccountId
is_qualified account s = (s.required_sbt, account)

-- `value` is the supply that was answered, `none` if the call failed or did not answer a number.
unfoldable pub is_qualified_callback : Option ℕ → Contract → Bool
is_qualified_callback none s = false
is_qualified_callback (some num) s = leb s.min_amount num
