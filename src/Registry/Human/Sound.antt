-- ===== src/Registry/Human/Sound.antt =====
-- Whom `_is_human` accepts (contracts/registry/src/lib.rs).
use i_am_human.Base.{
  ◌≡◌, ◌≢◌, ◌⊎◌, refl, ap, sym, ◌∙◌, true, false, ◌||◌, Option, none, some, List, [], ◌∷◌, ◌++◌,
  arith, ==_iff, Bool-cases, inl, inr, Ensures, Ensures-bind, Ensures-gets, Ensures-pure,
  Ensures-expect_last, Ensures-mono,
}
use i_am_human.Near.{AccountId, Env}
use i_am_human.Near.Keys.{ℕ_key}
use i_am_human.Sbt.{
  TokenId, ClassId, TokenMetadata, TokenData, VerTokenMetadata, v1, to_v1, class_id, OwnedToken,
}
use i_am_human.Registry.{Contract}
use i_am_human.Registry.Keys.{IssuerId, token_id}
use i_am_human.Registry.Invariant.{IsValid}
use i_am_human.Registry.Query.{is_expired}
use i_am_human.Registry.Human.{
  first_token, is_of_class, token_number, collect_proof, to_sbts, is_blacklisted, is_human,
}
use i_am_human.Registry.Human.Listing.{GroupsHold, sbt_tokens_by_owner-Hold}

-- The account has the issuer's token of the class, and it is not expired.
pub record Proves (env : Env) (o iss : AccountId) (s : Contract) (c : ClassId) (t : TokenId)
    : Type 0 where
  pub issuer_id : IssuerId
  pub issued : s.sbt_issuers iss ≡ some issuer_id
  pub data_of : TokenData
  pub found : s.issuer_tokens (token_id issuer_id t) ≡ some data_of
  pub owned : data_of.owner ≡ o
  pub of_class : class_id data_of.metadata ≡ c
  pub current : is_expired env data_of ≡ false

-- One token for each class, in order.
abbrev pub AllProve : Env → AccountId → AccountId → Contract → List ClassId → List TokenId → Type 0
AllProve env o iss s [] [] = Unit
AllProve env o iss s (c ∷ cs) (t ∷ ts) = Proves env o iss s c t × AllProve env o iss s cs ts
AllProve env o iss s _ _ = ⊥

-- The tokens found are those of earlier classes, then those of the classes that are left.
abbrev ProvesRest :
    Env
    → AccountId
    → AccountId
    → Contract
    → List ClassId
    → List TokenId
    → Option (List TokenId)
    → Type 0
ProvesRest env o iss s cs before none = Unit
ProvesRest env o iss s cs before (some ids) =
    (new : List TokenId) × (ids ≡ before ++ new) × AllProve env o iss s cs new

abbrev FirstProves : Env → AccountId → AccountId → Contract → ClassId → Option OwnedToken → Type 0
FirstProves env o iss s c t = is_of_class c t ≡ true → Proves env o iss s c (token_number t)

class-of_v1 : (m : VerTokenMetadata) → (to_v1 m).class ≡ class_id m
class-of_v1 (v1 m) = refl

-- A listed token of the class proves it.
first_token-Proves :
    (env : Env) (o iss : AccountId) (c : ClassId) (s : Contract)
    (groups : List (AccountId × List OwnedToken))
    → (groups ≡ []) ⊎ ((i : IssuerId) × (s.sbt_issuers iss ≡ some i) × GroupsHold env o i s groups)
    → Ensures (λ t u. FirstProves env o iss s c t × (u ≡ s)) (first_token groups s)
unfolding first_token
first_token-Proves env o iss c s [] h = Ensures-pure _ _ _ _ (λ e. absurd (ground (arith, e)), refl)
first_token-Proves env o iss c s ((a, []) ∷ groups) h =
    Ensures-expect_last _ _ _ _ λ _ e. absurd (ground (arith, e))
first_token-Proves env o iss c s ((a, t ∷ ts) ∷ groups) (inl h) = absurd (ground (arith, h))
first_token-Proves env o iss c s ((a, t ∷ ts) ∷ groups) (inr (i, e, h)) = Ensures-pure _ _ _ _ (
  λ f. record {
    issuer_id = i;
    issued = e;
    data_of = h.0.0.data_of;
    found = h.0.0.found;
    owned = h.0.0.owned;
    of_class =
        sym (class-of_v1 h.0.0.data_of.metadata)
        ∙ sym (ap (λ (m : TokenMetadata). m.class) h.0.0.shown)
        ∙ (==_iff t.metadata.class c).0 f;
    current = h.0.0.current;
  },
  refl,
)

append_assoc :
    (xs : List TokenId) (y : TokenId) (zs : List TokenId) → (xs ++ y ∷ []) ++ zs ≡ xs ++ (y ∷ zs)
append_assoc [] y zs = refl
append_assoc (x ∷ xs) y zs = ap (◌∷◌ x) (append_assoc xs y zs)

append_nil : (xs : List TokenId) → xs ++ [] ≡ xs
append_nil [] = refl
append_nil (x ∷ xs) = ap (◌∷◌ x) (append_nil xs)

ProvesRest-cons :
    (env : Env) (o iss : AccountId) (s : Contract) (c : ClassId) (cs : List ClassId)
    (before : List TokenId) (t : TokenId) (found : Option (List TokenId))
    → Proves env o iss s c t
    → ProvesRest env o iss s cs (before ++ t ∷ []) found
    → ProvesRest env o iss s (c ∷ cs) before found
ProvesRest-cons env o iss s c cs before t none p h = tt
ProvesRest-cons env o iss s c cs before t (some ids) p (new, e, h) =
    (t ∷ new, e ∙ append_assoc before t new, (p, h))

collect_proof-Proves :
    (env : Env) (o iss : AccountId) (cs : List ClassId) (before : List TokenId) (s : Contract)
    → ((i : IssuerId) → s.sbt_issuers iss ≡ some i → i ≢ 0)
    → IsValid s
    → Ensures
        (λ found t. ProvesRest env o iss s cs before found × (t ≡ s))
        (collect_proof env o iss cs before s)
unfolding collect_proof
collect_proof-Proves env o iss [] before s ne v =
    Ensures-pure _ _ _ _ (([], sym (append_nil before), tt), refl)
collect_proof-Proves env o iss (c ∷ cs) before s ne v =
    Ensures-bind _ _ _ _ _ (sbt_tokens_by_owner-Hold env o iss (some c) (some 1) s ne v)
      λ groups u g. rw g.1 (
        Ensures-bind _ _ _ _ _ (first_token-Proves env o iss c s groups g.0) λ t w f.
          rw f.1 (elim (Bool-cases (is_of_class c t)) [
            | inl has ↦ rw has (
                Ensures-mono _ _ _
                  (λ found x q. (
                    ProvesRest-cons env o iss s c cs before (token_number t) found (f.0 has) q.0,
                    q.1,
                  ))
                  (collect_proof-Proves env o iss cs (before ++ token_number t ∷ []) s ne v))
            | inr lacks ↦ rw lacks (Ensures-pure _ _ _ _ (tt, refl))
          ]))

-- In a valid registry whose IAH issuer does not have the number 0, a call of `_is_human` that
-- succeeds changes nothing, and its answer is empty or the one group of the IAH issuer; then the
-- account is neither banned nor blacklisted, and for each required class, in order, the group has
-- a token of that class, which the account holds and which has not expired.
pub is_human-Proves :
    (env : Env) (o : AccountId) (s : Contract)
    → ((i : IssuerId) → s.sbt_issuers s.iah_sbts.0 ≡ some i → i ≢ 0)
    → IsValid s
    → Ensures
        (λ proof t.
          (t ≡ s)
          × ((proof ≡ [])
              ⊎ ((ids : List TokenId) × (proof ≡ (s.iah_sbts.0, ids) ∷ [])
                  × (s.banlist o ≡ false)
                  × (is_blacklisted (s.flagged o) ≡ false)
                  × AllProve env o s.iah_sbts.0 s s.iah_sbts.1 ids)))
        (is_human env o s)
unfolding is_human
is_human-Proves env o s ne v = Ensures-gets _ _ _ _ (
    Ensures-gets _ _ _ _ (elim (Bool-cases (is_blacklisted (s.flagged o) || s.banlist o)) [
      | inl barred ↦ rw barred (Ensures-pure _ _ _ _ (refl, inl refl))
      | inr free ↦ rw free (
          Ensures-bind _ _ _ _ _ (collect_proof-Proves env o s.iah_sbts.0 s.iah_sbts.1 [] s ne v)
            λ found t g. Ensures-pure _ _ _ _ (g.1, shown free found g.0))
    ]))
  where
    shown :
        (is_blacklisted (s.flagged o) || s.banlist o) ≡ false
        → (found : Option (List TokenId)) → ProvesRest env o s.iah_sbts.0 s s.iah_sbts.1 [] found
        → (to_sbts s.iah_sbts.0 found ≡ [])
          ⊎ ((ids : List TokenId) × (to_sbts s.iah_sbts.0 found ≡ (s.iah_sbts.0, ids) ∷ [])
              × (s.banlist o ≡ false)
              × (is_blacklisted (s.flagged o) ≡ false)
              × AllProve env o s.iah_sbts.0 s s.iah_sbts.1 ids)
    shown free none h = inl refl
    shown free (some ids) (new, e, h) =
        inr (new, rw e refl, ground (arith, free), ground (arith, free), h)
