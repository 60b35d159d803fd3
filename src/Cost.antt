-- ===== src/Cost.antt =====
-- What the issuers pay the registry (contracts/cost/src/lib.rs): deposits in yoctoNEAR, and gas.
use i_am_human.Base.{ℕ, ◌*◌}
use i_am_human.Near.Words.{add_u64, mul_u64, mul_u128}

abbrev pub micro_near : ℕ
micro_near = 1000000000000000000

abbrev pub mili_near : ℕ
mili_near = 1000 * micro_near

abbrev pub mint_cost : ℕ
mint_cost = 9 * mili_near

-- `Gas::ONE_TERA`
abbrev pub one_tera : ℕ
one_tera = 1000000000000

abbrev pub mint_gas : ℕ
mint_gas = 7 * one_tera

abbrev pub is_human_gas : ℕ
is_human_gas = 2 * one_tera

-- The arithmetic is that of `u64` for gas and of `u128` for balances.
abbrev pub renew_gas : ℕ → ℕ
renew_gas num_tokens = add_u64 (2 * one_tera) (mul_u64 num_tokens 200000000000)

abbrev pub calculate_mint_gas : ℕ → ℕ
calculate_mint_gas num_tokens = mul_u64 (add_u64 num_tokens 1) mint_gas

abbrev pub calculate_iah_mint_gas : ℕ → ℕ → ℕ
calculate_iah_mint_gas num_tokens accounts =
    add_u64 (calculate_mint_gas num_tokens) (mul_u64 accounts is_human_gas)

abbrev pub mint_deposit : ℕ → ℕ
mint_deposit num_tokens = mul_u128 num_tokens mint_cost
