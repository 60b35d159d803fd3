-- ===== src/Registry/Sample.antt =====
-- A small registry, for runs of the registry and of contracts that it calls.
use i_am_human.Base.{◌≡◌, ◌≢◌, none, some, [], ◌∷◌, arith}
use i_am_human.Near.{AccountId, Env}
use i_am_human.Near.Keys.{ℕ_key, pair_key}
use i_am_human.Near.Lookup.{empty, insert}
use i_am_human.Near.Tree.{lookup, count}
use i_am_human.Sbt.{TokenMetadata, v1}
use i_am_human.Registry.{Contract}
use i_am_human.Registry.Keys.{IssuerId, token_id, token_key, balance_key, balance_ord}
use i_am_human.Registry.Invariant.{IsValid}
use i_am_human.Registry.Admin.{blank}

-- A call at time 1000, with a deposit that pays for everything here.
abbrev pub call_by : AccountId → Env
call_by account = record {
  predecessor = account;
  now = 1000;
  attached_deposit = 1000000;
  storage_byte_cost = 1;
  prepaid_gas = 100000000000000;
  signer = account;
  current_account = 1;
}

abbrev pub face : TokenMetadata
face = record {
  class = 1;
  issued_at = some 10;
  expires_at = some 5000;
  reference = none;
  reference_hash = none;
}

-- The authority is 1, the IAH issuer 3 (number 1), and the account 5 has its token 1 of class 1.
abbrev pub one_sbt : Contract
one_sbt = record (blank 1 3 (1 ∷ []) (2 ∷ [])) {
  sbt_issuers = insert 3 1 empty;
  issuer_id_map = insert 1 3 empty;
  next_issuer_id = 2;
  supply_by_owner = insert (5, 1) 1 empty;
  supply_by_class = insert (1, 1) 1 empty;
  supply_by_issuer = insert 1 1 empty;
  balances = (balance_key 5 1 1, 1) ∷ [];
  issuer_tokens = insert (token_id 1 1) (record { owner = 5; metadata = v1 face }) empty;
  next_token_ids = insert 1 1 empty;
}

pub one_sbt-IsValid : IsValid one_sbt
unfolding lookup count
one_sbt-IsValid = record {
  linked = record { sorted = (tt, tt); link = λ o i c t. ground arith };
  owners = λ o i. ground arith;
  classes = λ i c. ground arith;
  issuers = λ i. ground arith;
  numbered = λ i t. ground arith;
}

-- The IAH issuer has the number 1.
pub iah_issued : (i : IssuerId) → one_sbt.sbt_issuers one_sbt.iah_sbts.0 ≡ some i → i ≢ 0
iah_issued i h = λ z. ground (arith, h, z)
