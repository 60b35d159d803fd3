-- ===== src/Registry/Tables/Rules.antt =====
-- What is left to show of a block that begins with a decrease of a supply.
use i_am_human.Base.{
  ℕ, ◌≡◌, some, ◌>>=◌, Ensures, Ensures-assoc, Ensures-gets, Ensures-expect, Ensures-modify,
}
use i_am_human.Near.{AccountId}
use i_am_human.Near.Words.{sub_u64}
use i_am_human.Near.Keys.{ℕ_key, pair_key}
use i_am_human.Near.Lookup.{insert}
use i_am_human.Sbt.{TokenId, ClassId, TokenData}
use i_am_human.Registry.{Contract, Call}
use i_am_human.Registry.Keys.{IssuerId, token_id}
use i_am_human.Registry.Tables.{get_token, decrease_class, decrease_owner, decrease_issuer}

module _ {B : Type 0} (Q : B → Contract → Type 0) where
  pub Ensures-decrease_class :
      (i : IssuerId) (c : ClassId) (m : ℕ) (k : Unit {0} → Call B) (s : Contract)
      → ((n : ℕ)
          → s.supply_by_class (i, c) ≡ some n
          → Ensures Q
              (k tt (record s { supply_by_class = insert (i, c) (sub_u64 n m) s.supply_by_class })))
      → Ensures Q ((decrease_class i c m >>= k) s)
  unfolding decrease_class
  Ensures-decrease_class i c m k s h = Ensures-assoc _ _ _ _ _ (
      Ensures-gets _ _ _ _
        (Ensures-assoc _ _ _ _ _ (Ensures-expect _ _ _ _ _ λ n e. Ensures-modify _ _ _ _ (h n e))))

  pub Ensures-decrease_owner :
      (o : AccountId) (i : IssuerId) (n : ℕ) (k : Unit {0} → Call B) (s : Contract)
      → ((m : ℕ)
          → s.supply_by_owner (o, i) ≡ some m
          → Ensures Q
              (k tt (record s { supply_by_owner = insert (o, i) (sub_u64 m n) s.supply_by_owner })))
      → Ensures Q ((decrease_owner o i n >>= k) s)
  unfolding decrease_owner
  Ensures-decrease_owner o i n k s h = Ensures-assoc _ _ _ _ _ (
      Ensures-gets _ _ _ _
        (Ensures-assoc _ _ _ _ _ (Ensures-expect _ _ _ _ _ λ m e. Ensures-modify _ _ _ _ (h m e))))

  pub Ensures-decrease_issuer :
      (i : IssuerId) (n : ℕ) (k : Unit {0} → Call B) (s : Contract)
      → ((m : ℕ)
          → s.supply_by_issuer i ≡ some m
          → Ensures Q
              (k tt (record s { supply_by_issuer = insert i (sub_u64 m n) s.supply_by_issuer })))
      → Ensures Q ((decrease_issuer i n >>= k) s)
  unfolding decrease_issuer
  Ensures-decrease_issuer i n k s h = Ensures-assoc _ _ _ _ _ (
      Ensures-gets _ _ _ _
        (Ensures-assoc _ _ _ _ _ (Ensures-expect _ _ _ _ _ λ m e. Ensures-modify _ _ _ _ (h m e))))

  pub Ensures-get_token :
      (i : IssuerId) (t : TokenId) (k : TokenData → Call B) (s : Contract)
      → ((td : TokenData) → s.issuer_tokens (token_id i t) ≡ some td → Ensures Q (k td s))
      → Ensures Q ((get_token i t >>= k) s)
  unfolding get_token
  Ensures-get_token i t k s h =
      Ensures-assoc _ _ _ _ _ (Ensures-gets _ _ _ _ (Ensures-expect _ _ _ _ _ h))
