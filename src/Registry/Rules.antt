-- ===== src/Registry/Rules.antt =====
-- What is left to show of a block that begins with one of the registry's guards.
use i_am_human.Base.{
  ◌≡◌, true, not, some, ◌>>=◌, ◌==◌, Ensures, Ensures-assoc, Ensures-gets, Ensures-expect,
  Ensures-require,
}
use i_am_human.Near.{AccountId, Env}
use i_am_human.Registry.{Contract, Call}
use i_am_human.Registry.Keys.{IssuerId}
use i_am_human.Registry.Admin.{
  assert_issuer, issuer_by_id, assert_authority, assert_not_banned, assert_authorized_flagger,
  lists_flagger,
}

module _ {B : Type 0} (Q : B → Contract → Type 0) where
  pub Ensures-assert_issuer :
      (a : AccountId) (k : IssuerId → Call B) (s : Contract)
      → ((i : IssuerId) → s.sbt_issuers a ≡ some i → Ensures Q (k i s))
      → Ensures Q ((assert_issuer a >>= k) s)
  unfolding assert_issuer
  Ensures-assert_issuer a k s h =
      Ensures-assoc _ _ _ _ _ (Ensures-gets _ _ _ _ (Ensures-expect _ _ _ _ _ h))

  pub Ensures-issuer_by_id :
      (i : IssuerId) (k : AccountId → Call B) (s : Contract)
      → ((a : AccountId) → s.issuer_id_map i ≡ some a → Ensures Q (k a s))
      → Ensures Q ((issuer_by_id i >>= k) s)
  unfolding issuer_by_id
  Ensures-issuer_by_id i k s h =
      Ensures-assoc _ _ _ _ _ (Ensures-gets _ _ _ _ (Ensures-expect _ _ _ _ _ h))

  pub Ensures-assert_authority :
      (env : Env) (k : Unit {0} → Call B) (s : Contract)
      → ((s.authority == env.predecessor) ≡ true → Ensures Q (k tt s))
      → Ensures Q ((assert_authority env >>= k) s)
  unfolding assert_authority
  Ensures-assert_authority env k s h =
      Ensures-assoc _ _ _ _ _ (Ensures-gets _ _ _ _ (Ensures-require _ _ _ _ _ h))

  pub Ensures-assert_not_banned :
      (a : AccountId) (k : Unit {0} → Call B) (s : Contract)
      → (not (s.banlist a) ≡ true → Ensures Q (k tt s))
      → Ensures Q ((assert_not_banned a >>= k) s)
  unfolding assert_not_banned
  Ensures-assert_not_banned a k s h =
      Ensures-assoc _ _ _ _ _ (Ensures-gets _ _ _ _ (Ensures-require _ _ _ _ _ h))

  pub Ensures-assert_authorized_flagger :
      (env : Env) (k : Unit {0} → Call B) (s : Contract)
      → (lists_flagger env.predecessor s.authorized_flaggers ≡ true → Ensures Q (k tt s))
      → Ensures Q ((assert_authorized_flagger env >>= k) s)
  unfolding assert_authorized_flagger
  Ensures-assert_authorized_flagger env k s h =
      Ensures-assoc _ _ _ _ _ (Ensures-gets _ _ _ _ (Ensures-require _ _ _ _ _ h))
