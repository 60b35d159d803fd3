-- ===== src/Registry/Human/Reads.antt =====
-- `_is_human` and the listing that it uses change nothing, in whatever state they run
-- (contracts/registry/src/lib.rs, registry.rs).
use i_am_human.Base.{
  ℕ, pure, ◌≡◌, refl, Bool, false, not, ◌&&◌, ◌||◌, Option, none, some, List, [], ◌∷◌, ◌++◌,
  is_empty, is_some, unwrap_or, ◌==◌, ◌-◌, Bool-cases, inl, inr, Ensures, Ensures-bind,
  Ensures-gets, Ensures-require, Ensures-pure, Ensures-expect_last, if◌then◌else◌,
}
use i_am_human.Near.{AccountId, Env}
use i_am_human.Sbt.{TokenId, ClassId, OwnedToken}
use i_am_human.Registry.{Contract}
use i_am_human.Registry.Keys.{IssuerId, BalanceKey}
use i_am_human.Registry.Rules.{Ensures-assert_issuer, Ensures-issuer_by_id}
use i_am_human.Registry.Tables.Rules.{Ensures-get_token}
use i_am_human.Registry.Query.{
  Listing, max_limit, flush, switch_issuer, list_tokens, issuer_or_zero, owner_sbts,
  sbt_tokens_by_owner, is_expired,
}
use i_am_human.Registry.Human.{
  first_token, is_of_class, token_number, collect_proof, is_blacklisted, is_human,
}

flush-reads : (a : Listing) (s : Contract) → Ensures (λ _ t. t ≡ s) (flush a s)
unfolding flush
flush-reads a s = elim (Bool-cases (is_empty a.tokens)) [
  | inl e ↦ rw e (Ensures-pure _ _ _ _ refl)
  | inr e ↦ rw e (Ensures-issuer_by_id _ _ _ _ λ _ _. Ensures-pure _ _ _ _ refl)
]

switch_issuer-reads :
    (i : IssuerId) (a : Listing) (s : Contract) → Ensures (λ _ t. t ≡ s) (switch_issuer i a s)
unfolding switch_issuer
switch_issuer-reads i a s = elim (Bool-cases (a.prev_issuer == i)) [
  | inl e ↦ rw e (Ensures-pure _ _ _ _ refl)
  | inr e ↦ rw e (Ensures-bind _ _ _ _ _ (flush-reads a s) λ _ t f. Ensures-pure _ _ _ _ f)
]

list_tokens-reads :
    (env : Env) (o : AccountId) (i : IssuerId) (b : Bool) (entries : List (BalanceKey × TokenId))
    (limit : ℕ) (a : Listing) (s : Contract)
    → Ensures (λ _ t. t ≡ s) (list_tokens env o i b entries limit a s)
unfolding list_tokens
list_tokens-reads env o i b [] limit a s = Ensures-pure _ _ _ _ refl
list_tokens-reads env o i b ((key, token) ∷ rest) limit a s =
    elim (Bool-cases (not (key.owner == o))) [
      | inl e ↦ rw e (Ensures-pure _ _ _ _ refl)
      | inr e ↦ rw e (elim (Bool-cases (not (a.prev_issuer == key.issuer_id) && not (i == 0))) [
        | inl f ↦ rw f (Ensures-pure _ _ _ _ refl)
        | inr f ↦ rw f (
            Ensures-bind _ _ _ _ _ (switch_issuer-reads key.issuer_id a s) λ c t g. rw g (
              Ensures-get_token _ _ _ _ _ λ td h.
                elim (Bool-cases ((if not b && is_expired env td then limit else limit - 1) == 0)) [
                  | inl z ↦ rw z (Ensures-pure _ _ _ _ refl)
                  | inr z ↦ rw z (list_tokens-reads env o i b rest _ _ s)
                ]))
      ])
    ]

sbt_tokens_by_owner-reads :
    (env : Env) (o iss : AccountId) (cls limit : Option ℕ) (s : Contract)
    → Ensures (λ _ t. t ≡ s) (sbt_tokens_by_owner env o (some iss) cls limit none s)
unfolding sbt_tokens_by_owner owner_sbts issuer_or_zero
sbt_tokens_by_owner-reads env o iss cls limit s = Ensures-require _ _ _ _ _ λ _.
    Ensures-gets _ _ _ _ (elim (Bool-cases (is_some (s.ongoing_soul_tx o))) [
      | inl busy ↦ rw busy (Ensures-pure _ _ _ _ refl)
      | inr free ↦ rw free (
          Ensures-assert_issuer _ _ _ _ λ i e. Ensures-require _ _ _ _ _ λ _. Ensures-gets _ _ _ _ (
            Ensures-bind _ _ _ _ _
              (list_tokens-reads env o i (unwrap_or false none) _ (unwrap_or max_limit limit)
                (record { resp = []; tokens = []; prev_issuer = i }) s)
              λ a t g.
                rw g
                  (Ensures-bind _ (λ _ u. u ≡ s) _ _ _ (last a) λ b u k. Ensures-pure _ _ _ _ k)))
    ])
  where
    last :
        (a : Listing) → Ensures (λ _ u. u ≡ s) ((if a.prev_issuer == 0 then pure a else flush a) s)
    last a = elim (Bool-cases (a.prev_issuer == 0)) [
      | inl z ↦ rw z (Ensures-pure _ _ _ _ refl)
      | inr z ↦ rw z (flush-reads a s)
    ]

first_token-reads :
    (groups : List (AccountId × List OwnedToken)) (s : Contract)
    → Ensures (λ _ t. t ≡ s) (first_token groups s)
unfolding first_token
first_token-reads [] s = Ensures-pure _ _ _ _ refl
first_token-reads ((a, []) ∷ groups) s = Ensures-expect_last _ _ _ _ λ _ _. refl
first_token-reads ((a, t ∷ ts) ∷ groups) s = Ensures-pure _ _ _ _ refl

collect_proof-reads :
    (env : Env) (o iss : AccountId) (cs : List ClassId) (before : List TokenId) (s : Contract)
    → Ensures (λ _ t. t ≡ s) (collect_proof env o iss cs before s)
unfolding collect_proof
collect_proof-reads env o iss [] before s = Ensures-pure _ _ _ _ refl
collect_proof-reads env o iss (c ∷ cs) before s =
    Ensures-bind _ _ _ _ _ (sbt_tokens_by_owner-reads env o iss (some c) (some 1) s) λ groups u g.
      rw g (
        Ensures-bind _ _ _ _ _ (first_token-reads groups s) λ t w f.
          rw f (elim (Bool-cases (is_of_class c t)) [
            | inl has ↦ rw has (collect_proof-reads env o iss cs (before ++ token_number t ∷ []) s)
            | inr lacks ↦ rw lacks (Ensures-pure _ _ _ _ refl)
          ]))

pub is_human-reads :
    (env : Env) (o : AccountId) (s : Contract) → Ensures (λ _ t. t ≡ s) (is_human env o s)
unfolding is_human
is_human-reads env o s = Ensures-gets _ _ _ _ (
    Ensures-gets _ _ _ _ (elim (Bool-cases (is_blacklisted (s.flagged o) || s.banlist o)) [
      | inl barred ↦ rw barred (Ensures-pure _ _ _ _ refl)
      | inr free ↦ rw free (
          Ensures-bind _ _ _ _ _ (collect_proof-reads env o s.iah_sbts.0 s.iah_sbts.1 [] s)
            λ found t g. Ensures-pure _ _ _ _ g)
    ]))
