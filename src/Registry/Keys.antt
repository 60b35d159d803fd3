-- ===== src/Registry/Keys.antt =====
-- The keys of the registry's collections (contracts/registry/src/storage.rs).
use i_am_human.Base.{ℕ, ◌≡◌, ◌↔◌, Bool, true, false, ◌&&◌, ◌||◌, arith, ltb, ◌==◌ as nat_eq}
use i_am_human.Near.{AccountId}
use i_am_human.Near.Keys.{Eq, Ord}
use i_am_human.Sbt.{TokenId, ClassId}

-- `u32`
abbrev pub IssuerId : Type 0
IssuerId = ℕ

pub record IssuerTokenId : Type 0 where
  pub issuer_id : IssuerId
  pub token : TokenId

abbrev pub token_id : IssuerId → TokenId → IssuerTokenId
token_id issuer_id token = record { issuer_id = issuer_id; token = token }

abbrev pub token_eq : IssuerTokenId → IssuerTokenId → Bool
token_eq a b = nat_eq a.issuer_id b.issuer_id && nat_eq a.token b.token

pub token_eq_iff : (a b : IssuerTokenId) → (token_eq a b ≡ true) ↔ (a ≡ b)
token_eq_iff a b = ground arith

instance abbrev pub token_key : Eq IssuerTokenId
token_key = record { eq = token_eq; eq_iff = token_eq_iff }

pub record BalanceKey : Type 0 where
  pub owner : AccountId
  pub issuer_id : IssuerId
  pub class_id : ClassId

abbrev pub balance_key : AccountId → IssuerId → ClassId → BalanceKey
balance_key owner issuer_id class_id = record {
  owner = owner;
  issuer_id = issuer_id;
  class_id = class_id;
}

-- `#[derive(Eq, Ord)]`: field by field.
abbrev pub balance_eq : BalanceKey → BalanceKey → Bool
balance_eq a b =
    nat_eq a.owner b.owner && (nat_eq a.issuer_id b.issuer_id && nat_eq a.class_id b.class_id)

abbrev pub balance_lt : BalanceKey → BalanceKey → Bool
balance_lt a b =
    ltb a.owner b.owner
    || (nat_eq a.owner b.owner
        && (ltb a.issuer_id b.issuer_id
            || (nat_eq a.issuer_id b.issuer_id && ltb a.class_id b.class_id)))

pub balance_eq_iff : (a b : BalanceKey) → (balance_eq a b ≡ true) ↔ (a ≡ b)
balance_eq_iff a b = ground arith

pub balance_lt_irrefl : (a : BalanceKey) → balance_lt a a ≡ false
balance_lt_irrefl a = ground arith

pub balance_lt_trans :
    (a b c : BalanceKey) → balance_lt a b ≡ true → balance_lt b c ≡ true → balance_lt a c ≡ true
balance_lt_trans a b c h k = ground arith

pub balance_lt_total :
    (a b : BalanceKey) → balance_lt a b ≡ false → balance_eq a b ≡ false → balance_lt b a ≡ true
balance_lt_total a b h k = ground arith

instance abbrev pub balance_ord : Ord BalanceKey
balance_ord = record {
  eq = balance_eq;
  eq_iff = balance_eq_iff;
  lt = balance_lt;
  lt_irrefl = balance_lt_irrefl;
  lt_trans = balance_lt_trans;
  lt_total = balance_lt_total;
}
