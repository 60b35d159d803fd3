-- ===== src/Oracle/Identities.antt =====
-- Mints in flight: the oracle's calls and the registry's answers in any order
-- (contracts/oracle/src/lib.rs).
use i_am_human.Base.{
  ℕ, ◌+◌, ◌≤◌, ◌≡◌, refl, sym, ap, ◌∙◌, subst, true, false, List, [], ◌∷◌, ◌++◌, Option, none, some,
  arith, if◌then◌else◌, Result, ok, err, Ensures, Ensures-assoc, Ensures-bind, Ensures-gets,
  Ensures-require, Ensures-expect, Ensures-pure, Ensures-last, Ensures-of_eq, ◌>>=◌, is_some,
  Bool-cases, inl, inr,
}
use i_am_human.Near.{AccountId, Env}
use i_am_human.Near.Keys.{list_key, list_eq}
use i_am_human.Near.Text.{Chars}
use i_am_human.Near.Lookup.{LookupSet, add, drop}
use i_am_human.Sbt.{TokenId, ClassId, ContractMetadata, ClassMetadata}
use i_am_human.Oracle.{Bytes, CtrError, Contract, Call, MintPromise, Platform}
use i_am_human.Oracle.Account.{pubkey_from_b64}
use i_am_human.Oracle.Mint.{new, sbt_mint, sbt_mint_callback}
use i_am_human.Oracle.Admin.{
  assert_admin, admin_change_authority, add_admin, remove_admin, set_class_metadata,
}
use i_am_human.Oracle.Guards.{sbt_mint-accepts}
use i_am_human.Oracle.Rollback.{are_bytes, HexLaws, normalize_external_id_bytes}

-- The calls of an admin that change the contract.
pub data Administration : Type 0 where
  authority : Chars → Administration
  added removed : AccountId → Administration
  class_metadata : ClassId → ClassMetadata → Administration

unfoldable pub administer : Platform → Env → Administration → Call (Unit {0})
administer platform env (authority key) = admin_change_authority platform env key
administer platform env (added a) = add_admin env a
administer platform env (removed a) = remove_admin env a
administer platform env (class_metadata c m) = set_class_metadata env c m

-- The contract, the identities whose mint the registry has not answered, and those that it minted
-- a token for.
pub record World : Type 0 where
  pub contract : Contract
  pub pending : List Bytes
  pub minted : List Bytes

-- The state after a call, which a failure leaves as it was.
abbrev pub settled : {A : Type 0} → Result CtrError (A × Contract) → Contract → Contract
settled (ok r) s = r.1
settled (err e) s = s

abbrev pub answered : Bytes → Option (List TokenId) → List Bytes → List Bytes
answered id none minted = minted
answered id (some tokens) minted = id ∷ minted

module _ (platform : Platform) where
  -- A `sbt_mint` that succeeds, the callback with an answer of the registry for one of the pending
  -- mints, or a call of an admin.
  pub data Step (w u : World) : Type 0 where
    mints :
        (env : Env) (claim_b64 claim_sig : Chars) (id : Bytes) (p : MintPromise) (c : Contract)
        → sbt_mint platform env claim_b64 claim_sig w.contract ≡ ok (p, c)
        → are_bytes id ≡ true
        → p.external_id ≡ platform.hex_encode id
        → u ≡ record { contract = c; pending = id ∷ w.pending; minted = w.minted }
        → Step w u
    answers :
        (before : List Bytes) (id : Bytes) (after : List Bytes) (result : Option (List TokenId))
        → are_bytes id ≡ true
        → w.pending ≡ before ++ id ∷ after
        → u ≡ record {
          contract =
              settled
                (sbt_mint_callback platform (platform.hex_encode id) result w.contract)
                w.contract;
          pending = before ++ after;
          minted = answered id result w.minted;
        }
        → Step w u
    administers :
        (env : Env) (a : Administration) (c : Contract)
        → administer platform env a w.contract ≡ ok (tt, c)
        → u ≡ record w { contract = c }
        → Step w u

  pub data Reach (w : World) : World → Type 0 where
    here : Reach w w
    next : {t u : World} → Reach w t → Step t u → Reach w u

abbrev pub launched : Contract → World
launched c = record { contract = c; pending = []; minted = [] }

abbrev pub occurrences : Bytes → List Bytes → ℕ
occurrences b [] = 0
occurrences b (x ∷ xs) = (if list_eq x b then 1 else 0) + occurrences b xs

-- An identity is pending or minted at most once, and only if it is used.
abbrev pub IsSound : World → Type 0
IsSound w =
    (b : Bytes)
    → occurrences b w.pending + occurrences b w.minted
      ≤ (if w.contract.used_identities b then 1 else 0)

occurrences-middle :
    (b : Bytes) (before : List Bytes) (id : Bytes) (after : List Bytes)
    → occurrences b (before ++ id ∷ after)
      ≡ (if list_eq id b then 1 else 0) + occurrences b (before ++ after)
occurrences-middle b [] id after = refl
occurrences-middle b (x ∷ before) id after = omega (arith, occurrences-middle b before id after)

assert_admin-keeps :
    {B : Type 0} (Q : B → Contract → Type 0) (env : Env) (k : Unit {0} → Call B) (s : Contract)
    → Ensures Q (k tt s)
    → Ensures Q ((assert_admin env >>= k) s)
unfolding assert_admin
assert_admin-keeps Q env k s h =
    Ensures-assoc _ _ _ _ _ (Ensures-gets _ _ _ _ (Ensures-require _ _ _ _ _ λ _. h))

pubkey-keeps :
    (platform : Platform) (key : Chars) (s : Contract)
    → Ensures (λ _ t. t.used_identities ≡ s.used_identities) (pubkey_from_b64 platform key s)
unfolding pubkey_from_b64
pubkey-keeps platform key s =
    Ensures-expect _ _ _ _ _ λ _ _. Ensures-require _ _ _ _ _ λ _. Ensures-pure _ _ _ _ refl

-- An admin's call leaves the used identities.
administer-used_identities :
    (platform : Platform) (env : Env) (a : Administration) (s : Contract)
    → Ensures (λ _ t. t.used_identities ≡ s.used_identities) (administer platform env a s)
unfolding administer admin_change_authority add_admin remove_admin set_class_metadata
administer-used_identities platform env (authority key) s =
    assert_admin-keeps _ env _ s
      (Ensures-bind _ _ _ _ _ (pubkey-keeps platform key s) λ _ t h. Ensures-last _ _ _ _ h)
administer-used_identities platform env (added a) s =
    assert_admin-keeps _ env _ s (Ensures-last _ _ _ _ refl)
administer-used_identities platform env (removed a) s =
    assert_admin-keeps _ env _ s (Ensures-last _ _ _ _ refl)
administer-used_identities platform env (class_metadata c m) s =
    assert_admin-keeps _ env _ s (Ensures-require _ _ _ _ _ λ _. Ensures-last _ _ _ _ refl)

module _ (platform : Platform) (laws : HexLaws platform) where
  encode-injective :
      (a b : Bytes)
      → are_bytes a ≡ true
      → are_bytes b ≡ true
      → platform.hex_encode a ≡ platform.hex_encode b
      → a ≡ b
  encode-injective a b k l h =
      ground (arith, laws.decode-encode a k, laws.decode-encode b l, ap platform.hex_decode h)

  -- The state after the callback, for either answer of the registry.
  callback-settled :
      (id : Bytes) (result : Option (List TokenId)) (s : Contract)
      → are_bytes id ≡ true
      → settled (sbt_mint_callback platform (platform.hex_encode id) result s) s
        ≡ (if is_some result then s else record s { used_identities = drop id s.used_identities })
  unfolding sbt_mint_callback ◌>>=◌
  callback-settled id none s b = rw (laws.decode-encode id b) refl
  callback-settled id (some []) s b = refl
  callback-settled id (some (t ∷ ts)) s b = refl

  added_sound :
      (id b : Bytes) (n : ℕ) (m : LookupSet Bytes)
      → m id ≡ false
      → n ≤ (if m b then 1 else 0)
      → (if list_eq id b then 1 else 0) + n ≤ (if add id m b then 1 else 0)
  added_sound id b n m h k = elim (Bool-cases (list_eq id b)) [
    | inl e ↦ rw e (
        omega (
          arith,
          subst (λ x. n ≤ (if x then 1 else 0)) (ap m (sym ((list_key.eq_iff id b).0 e)) ∙ h) k,
        ))
    | inr e ↦ rw e (omega (arith, k))
  ]

  dropped_sound :
      (id b : Bytes) (n : ℕ) (m : LookupSet Bytes)
      → (if list_eq id b then 1 else 0) + n ≤ (if m b then 1 else 0)
      → n ≤ (if drop id m b then 1 else 0)
  dropped_sound id b n m k = ground arith

  answered-IsSound :
      (id : Bytes) (result : Option (List TokenId)) (s : Contract)
      (before after minted : List Bytes)
      → IsSound (record { contract = s; pending = before ++ id ∷ after; minted = minted })
      → IsSound (record {
        contract =
            if is_some result then s else record s { used_identities = drop id s.used_identities };
        pending = before ++ after;
        minted = answered id result minted;
      })
  answered-IsSound id none s before after minted h b =
      dropped_sound id b _ s.used_identities
        (ground (arith, h b, occurrences-middle b before id after))
  answered-IsSound id (some ts) s before after minted h b =
      ground (arith, h b, occurrences-middle b before id after)

  minted-IsSound :
      (w : World) (id : Bytes) (c : Contract)
      → w.contract.used_identities id ≡ false
      → c.used_identities ≡ add id w.contract.used_identities
      → IsSound w
      → IsSound (record { contract = c; pending = id ∷ w.pending; minted = w.minted })
  minted-IsSound w id c unused e h b =
      subst
        (λ (m : LookupSet Bytes).
          (if list_eq id b then 1 else 0) + occurrences b w.pending + occurrences b w.minted
          ≤ (if m b then 1 else 0))
        (sym e) (omega (arith, added_sound id b _ w.contract.used_identities unused (h b)))

  Step-IsSound : (w u : World) → Step platform w u → IsSound w → IsSound u
  Step-IsSound w u (mints env claim_b64 claim_sig id p c e bytes x i) h =
      let a = Ensures-of_eq _ _ (sbt_mint-accepts platform env claim_b64 claim_sig w.contract) e in
      let same =
        encode-injective id a.1 bytes (normalize_external_id_bytes platform laws _ a.1 a.2.identity)
          (sym x ∙ ap (λ (q : MintPromise). q.external_id) a.3) in
      subst IsSound (sym i) (
        minted-IsSound w id c (ap w.contract.used_identities same ∙ a.2.unused)
          (ap (λ (t : Contract). t.used_identities) a.4
            ∙ ap (λ j. add j w.contract.used_identities) (sym same))
          h)
  Step-IsSound w u (answers before id after result bytes e i) h = subst IsSound (sym i) (
      subst
        (λ c. IsSound (record {
          contract = c;
          pending = before ++ after;
          minted = answered id result w.minted;
        }))
        (sym (callback-settled id result w.contract bytes))
        (answered-IsSound id result w.contract before after w.minted
          (subst (λ l. IsSound (record w { pending = l })) e h)))
  Step-IsSound w u (administers env a c e i) h = subst IsSound (sym i) λ b.
      subst
        (λ (m : LookupSet Bytes).
          occurrences b w.pending + occurrences b w.minted ≤ (if m b then 1 else 0))
        (sym (Ensures-of_eq _ _ (administer-used_identities platform env a w.contract) e)) (h b)

  Reach-IsSound : (w u : World) → Reach platform w u → IsSound w → IsSound u
  Reach-IsSound w u here h = h
  Reach-IsSound w u (next r s) h = Step-IsSound _ u s (Reach-IsSound w _ r h)

-- If the hex codec decodes what it encodes, then from a new contract, whatever calls of `sbt_mint`,
-- answers of the registry and calls of admins follow, in any order, tokens are minted at most once
-- for an identity, an identity is never minted and pending at the same time, and one that is minted
-- or pending is used.
pub sbt_mint-once :
    (platform : Platform) (key : Bytes) (metadata : ContractMetadata) (registry : AccountId)
    (claim_ttl : ℕ) (admin : AccountId) (u : World)
    → HexLaws platform
    → Reach platform (launched (new key metadata registry claim_ttl admin)) u
    → (b : Bytes)
    → (occurrences b u.pending + occurrences b u.minted ≤ 1)
      × (u.contract.used_identities b ≡ false
          → occurrences b u.pending + occurrences b u.minted ≡ 0)
unfolding new
sbt_mint-once platform key metadata registry claim_ttl admin u laws r b =
    ground (arith, Reach-IsSound platform laws _ u r (λ b. omega arith) b)
