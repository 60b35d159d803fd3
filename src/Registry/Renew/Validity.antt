-- ===== src/Registry/Renew/Validity.antt =====
-- New expiries and new references, and the invariant: `_sbt_renew`, `sbt_revoke` without burning and
-- `sbt_update_token_references` (contracts/registry/src).
use i_am_human.Base.{
  ℕ, ◌≡◌, refl, sym, Option, some, List, [], ◌∷◌, String, arith, false, Ensures, Ensures-bind,
  Ensures-pure, Ensures-last, Ensures-modify,
}
use i_am_human.Near.{Env}
use i_am_human.Near.Keys.{ℕ_key, pair_key}
use i_am_human.Sbt.{TokenId, TokenData, VerTokenMetadata, v1, to_v1, class_id}
use i_am_human.Registry.{Contract}
use i_am_human.Registry.Keys.{IssuerId, token_id, token_key}
use i_am_human.Registry.Invariant.{IsValid, Linked-update, log-IsValid}
use i_am_human.Registry.Rules.{Ensures-assert_issuer, Ensures-assert_not_banned}
use i_am_human.Registry.Tables.{put_token}
use i_am_human.Registry.Tables.Rules.{Ensures-get_token}
use i_am_human.Registry.Renew.{
  set_expiry, renew_each, sbt_renew, Update, set_reference, update_each,
  sbt_update_token_references,
}
use i_am_human.Registry.Revoke.{expire_each, sbt_revoke}

-- A record that keeps its owner and its class may replace another.
put_token-IsValid :
    (i : IssuerId) (t : TokenId) (td new : TokenData) (s : Contract)
    → IsValid s
    → s.issuer_tokens (token_id i t) ≡ some td
    → new.owner ≡ td.owner
    → class_id new.metadata ≡ class_id td.metadata
    → IsValid (put_token i t new s)
put_token-IsValid i t td new s v e o c = record {
  linked = Linked-update s.balances s.issuer_tokens v.linked i t new (rw (e, o, c) refl);
  owners = v.owners;
  classes = v.classes;
  issuers = v.issuers;
  numbered = λ j u. ground (arith, e, v.numbered j u);
}

class-of_v1 : (m : VerTokenMetadata) → class_id m ≡ (to_v1 m).class
class-of_v1 (v1 m) = refl

set_expiry-class :
    (time : ℕ) (td : TokenData) → class_id (set_expiry time td).metadata ≡ class_id td.metadata
set_expiry-class time td = sym (class-of_v1 td.metadata)

set_reference-class :
    (r : Option String) (h : Option (List ℕ)) (td : TokenData)
    → class_id (set_reference r h td).metadata ≡ class_id td.metadata
set_reference-class r h td = sym (class-of_v1 td.metadata)

renew_each-IsValid :
    (i : IssuerId) (time : ℕ) (tokens : List TokenId) (s : Contract)
    → IsValid s
    → Ensures (λ _ t. IsValid t) (renew_each i time tokens s)
unfolding renew_each
renew_each-IsValid i time [] s v = Ensures-pure _ _ _ _ v
renew_each-IsValid i time (x ∷ tokens) s v = Ensures-get_token _ _ _ _ _ λ td e.
    Ensures-assert_not_banned _ _ _ _ λ _. Ensures-modify _ _ _ _ (
      renew_each-IsValid i time tokens _
        (put_token-IsValid i x td (set_expiry time td) s v e refl (set_expiry-class time td)))

expire_each-IsValid :
    (i : IssuerId) (time : ℕ) (tokens : List TokenId) (s : Contract)
    → IsValid s
    → Ensures (λ _ t. IsValid t) (expire_each i time tokens s)
unfolding expire_each
expire_each-IsValid i time [] s v = Ensures-pure _ _ _ _ v
expire_each-IsValid i time (x ∷ tokens) s v = Ensures-get_token _ _ _ _ _ λ td e.
    Ensures-modify _ _ _ _ (
      expire_each-IsValid i time tokens _
        (put_token-IsValid i x td (set_expiry time td) s v e refl (set_expiry-class time td)))

update_each-IsValid :
    (i : IssuerId) (updates : List Update) (s : Contract)
    → IsValid s
    → Ensures (λ _ t. IsValid t) (update_each i updates s)
unfolding update_each
update_each-IsValid i [] s v = Ensures-pure _ _ _ _ v
update_each-IsValid i ((x, r, h) ∷ updates) s v = Ensures-get_token _ _ _ _ _ λ td e.
    Ensures-modify _ _ _ _ (
      update_each-IsValid i updates _
        (put_token-IsValid i x td (set_reference r h td) s v e refl (set_reference-class r h td)))

-- In a valid registry a successful `sbt_renew` leaves a valid one.
pub sbt_renew-IsValid :
    (env : Env) (tokens : List TokenId) (time : ℕ) (s : Contract)
    → IsValid s
    → Ensures (λ _ t. IsValid t) (sbt_renew env tokens time s)
unfolding sbt_renew
sbt_renew-IsValid env tokens time s v = Ensures-assert_issuer _ _ _ _ λ i _.
    Ensures-bind _ _ _ _ _ (renew_each-IsValid i time tokens s v)
      λ _ t w. Ensures-last _ _ _ _ (log-IsValid t _ w)

-- In a valid registry a successful `sbt_revoke` that does not burn leaves a valid one.
pub sbt_revoke-IsValid :
    (env : Env) (tokens : List TokenId) (s : Contract)
    → IsValid s
    → Ensures (λ _ t. IsValid t) (sbt_revoke env tokens false s)
unfolding sbt_revoke
sbt_revoke-IsValid env tokens s v = Ensures-assert_issuer _ _ _ _ λ i _.
    Ensures-bind _ _ _ _ _ (expire_each-IsValid i env.now tokens s v)
      λ _ t w. Ensures-last _ _ _ _ (log-IsValid t _ w)

-- In a valid registry a successful `sbt_update_token_references` leaves a valid one.
pub sbt_update_token_references-IsValid :
    (env : Env) (updates : List Update) (s : Contract)
    → IsValid s
    → Ensures (λ _ t. IsValid t) (sbt_update_token_references env updates s)
unfolding sbt_update_token_references
sbt_update_token_references-IsValid env updates s v = Ensures-assert_issuer _ _ _ _ λ i _.
    Ensures-bind _ _ _ _ _ (update_each-IsValid i updates s v)
      λ _ t w. Ensures-last _ _ _ _ (log-IsValid t _ w)
