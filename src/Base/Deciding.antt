-- ===== src/Base/Deciding.antt =====
-- Calls that succeed exactly under a condition: rules for the actions of a `do` block.
use mathlib.Core.Path.{◌≡◌, refl, sym, subst}
use mathlib.Core.Bool.{Bool, true, false, ◌&&◌}
use mathlib.Core.Option.{Option, none, some}
use i_am_human.Base.Tests.{is_some}
use i_am_human.Base.Transaction.{
  Result, ok, err, Tx, pure, gets, modify, require, expect, attempt, ◌>>=◌, >>=_assoc,
}

-- The call succeeds exactly if the test is true, and then this holds of its result.
unfoldable pub SucceedsIf : {E S A : Type 0} → Bool → (A → S → Type 0) → Result E (A × S) → Type 0
SucceedsIf true P (ok r) = P r.0 r.1
SucceedsIf true P (err e) = ⊥
SucceedsIf false P (ok r) = ⊥
SucceedsIf false P (err e) = Unit

abbrev pub is_ok : {E A : Type 0} → Result E A → Bool
is_ok (ok a) = true
is_ok (err e) = false

module _ {E S A B : Type 0} (Q : B → S → Type 0) where
  pub SucceedsIf-bind :
      (b c : Bool) (P : A → S → Type 0) (m : Tx E S A) (f : A → Tx E S B) (s : S)
      → SucceedsIf b P (m s)
      → ((a : A) (t : S) → P a t → SucceedsIf c Q (f a t))
      → SucceedsIf (b && c) Q ((m >>= f) s)
  unfolding ◌>>=◌ SucceedsIf
  SucceedsIf-bind b c P m f s h k = go b (m s) h
    where
      go :
          (b : Bool) (r : Result E (A × S))
          → SucceedsIf b P r
          → SucceedsIf (b && c) Q (elim r [ ok x ↦ f x.0 x.1 | err e ↦ err e ])
      go true (ok x) p = k x.0 x.1 p
      go true (err e) p = elim p [ ]
      go false (ok x) p = elim p [ ]
      go false (err e) p = tt

  pub SucceedsIf-expect :
      (c : Bool) (e : E) (o : Option A) (f : A → Tx E S B) (s : S)
      → ((a : A) → o ≡ some a → SucceedsIf c Q (f a s))
      → SucceedsIf (is_some o && c) Q ((expect e o >>= f) s)
  unfolding ◌>>=◌ SucceedsIf
  SucceedsIf-expect c e none f s h = tt
  SucceedsIf-expect c e (some a) f s h = h a refl

  pub SucceedsIf-expect-some :
      (c : Bool) (e : E) (a : A) (f : A → Tx E S B) (s : S)
      → SucceedsIf c Q (f a s)
      → SucceedsIf c Q ((expect e (some a) >>= f) s)
  unfolding ◌>>=◌
  SucceedsIf-expect-some c e a f s h = h

  pub SucceedsIf-expect-none :
      (e : E) (f : A → Tx E S B) (s : S) → SucceedsIf false Q ((expect e none >>= f) s)
  unfolding ◌>>=◌ SucceedsIf
  SucceedsIf-expect-none e f s = tt

  pub SucceedsIf-attempt :
      (c : Bool) (r : Result E A) (f : A → Tx E S B) (s : S)
      → ((a : A) → r ≡ ok a → SucceedsIf c Q (f a s))
      → SucceedsIf (is_ok r && c) Q ((attempt r >>= f) s)
  unfolding ◌>>=◌ SucceedsIf
  SucceedsIf-attempt c (err e) f s h = tt
  SucceedsIf-attempt c (ok a) f s h = h a refl

  pub SucceedsIf-gets :
      (c : Bool) (g : S → A) (f : A → Tx E S B) (s : S)
      → SucceedsIf c Q (f (g s) s)
      → SucceedsIf c Q ((gets g >>= f) s)
  unfolding ◌>>=◌
  SucceedsIf-gets c g f s h = h

module _ {E S B : Type 0} (Q : B → S → Type 0) where
  pub SucceedsIf-require :
      (c : Bool) (e : E) (b : Bool) (k : Unit {0} → Tx E S B) (s : S)
      → (b ≡ true → SucceedsIf c Q (k tt s))
      → SucceedsIf (b && c) Q ((require e b >>= k) s)
  unfolding ◌>>=◌ SucceedsIf
  SucceedsIf-require c e true k s h = h refl
  SucceedsIf-require c e false k s h = tt

  pub SucceedsIf-modify :
      (c : Bool) (g : S → S) (k : Unit {0} → Tx E S B) (s : S)
      → SucceedsIf c Q (k tt (g s))
      → SucceedsIf c Q ((modify g >>= k) s)
  unfolding ◌>>=◌
  SucceedsIf-modify c g k s h = h

  pub SucceedsIf-test :
      (b c : Bool) (r : Result E (B × S)) → b ≡ c → SucceedsIf b Q r → SucceedsIf c Q r
  SucceedsIf-test b c r e h = subst (λ x. SucceedsIf x Q r) e h

  -- The last action has no condition.
  pub SucceedsIf-only :
      (b : Bool) (r : Result E (B × S)) → SucceedsIf (b && true) Q r → SucceedsIf b Q r
  SucceedsIf-only true r h = h
  SucceedsIf-only false r h = h

  pub SucceedsIf-mono :
      (b : Bool) (P : B → S → Type 0) (r : Result E (B × S))
      → ((x : B) (s : S) → P x s → Q x s)
      → SucceedsIf b P r
      → SucceedsIf b Q r
  unfolding SucceedsIf
  SucceedsIf-mono true P (ok x) h p = h x.0 x.1 p
  SucceedsIf-mono true P (err e) h p = p
  SucceedsIf-mono false P (ok x) h p = p
  SucceedsIf-mono false P (err e) h p = p

module _ (E : Type 0) {S B : Type 0} (Q : B → S → Type 0) where
  pub SucceedsIf-pure : (b : B) (s : S) → Q b s → SucceedsIf true Q (pure {E = E} b s)
  unfolding pure SucceedsIf
  SucceedsIf-pure b s h = h

module _ (E : Type 0) {S : Type 0} (Q : Unit {0} → S → Type 0) where
  pub SucceedsIf-last : (g : S → S) (s : S) → Q tt (g s) → SucceedsIf true Q (modify {E = E} g s)
  unfolding modify SucceedsIf
  SucceedsIf-last g s h = h

module _ {E S : Type 0} (Q : Unit {0} → S → Type 0) where
  pub SucceedsIf-require_last :
      (e : E) (b : Bool) (s : S) → (b ≡ true → Q tt s) → SucceedsIf b Q (require e b s)
  unfolding require SucceedsIf
  SucceedsIf-require_last e true s h = h refl
  SucceedsIf-require_last e false s h = tt

module _ {E S A B C : Type 0} (Q : C → S → Type 0) where
  pub SucceedsIf-assoc :
      (b : Bool) (m : Tx E S A) (f : A → Tx E S B) (k : B → Tx E S C) (s : S)
      → SucceedsIf b Q ((m >>= λ a. f a >>= k) s)
      → SucceedsIf b Q (((m >>= f) >>= k) s)
  SucceedsIf-assoc b m f k s h = subst (SucceedsIf b Q) (sym (>>=_assoc m f k s)) h

module _ {E L S A B : Type 0} (Q : B → S → Type 0) where
  -- A loop that runs on variables of its own.
  pub SucceedsIf-run :
      (b c : Bool) (P : A → L → Type 0) (r : Result E (A × L)) (f : A × L → Tx E S B) (s : S)
      → SucceedsIf b P r
      → ((a : A) (l : L) → P a l → SucceedsIf c Q (f (a, l) s))
      → SucceedsIf (b && c) Q ((attempt r >>= f) s)
  unfolding ◌>>=◌ SucceedsIf
  SucceedsIf-run true c P (ok x) f s h k = k x.0 x.1 h
  SucceedsIf-run true c P (err e) f s h k = elim h [ ]
  SucceedsIf-run false c P (ok x) f s h k = elim h [ ]
  SucceedsIf-run false c P (err e) f s h k = tt
