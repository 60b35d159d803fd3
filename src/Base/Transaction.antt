-- ===== src/Base/Transaction.antt =====
-- A transaction on a contract: state and failure. NEAR keeps no change of a call that panics, and
-- a returned `Err` panics too (`#[handle_result]`), so a failure carries no state.
use mathlib.Core.Path.{◌≡◌, refl, sym, subst}
use mathlib.Core.Bool.{Bool, true, false}
use mathlib.Core.Option.{Option, none, some}
use native.Mathlib.Omega.{arith}
use i_am_human.Base.Tests.{if◌then◌else◌}

pub data Result (E A : Type 0) : Type 0 where
  ok : A → Result E A
  err : E → Result E A

-- A call: from the contract's state to a failure, or to the value and the new state.
abbrev pub Tx : Type 0 → Type 0 → Type 0 → Type 0
Tx E S A = S → Result E (A × S)

module _ {E S : Type 0} where
  unfoldable pub pure : {A : Type 0} → A → Tx E S A
  pure a s = ok (a, s)

  unfoldable pub gets : {A : Type 0} → (S → A) → Tx E S A
  gets f s = ok (f s, s)

  unfoldable pub modify : (S → S) → Tx E S (Unit {0})
  modify f s = ok (tt, f s)

  -- `require!(test, e)`
  unfoldable pub require : E → Bool → Tx E S (Unit {0})
  require e b s = if b then ok (tt, s) else err e

  -- `o.expect(e)`, and `unwrap` and `unwrap_or_else(panic)` likewise.
  unfoldable pub expect : {A : Type 0} → E → Option A → Tx E S A
  expect e none s = err e
  expect e (some a) s = ok (a, s)

  -- `r?`
  unfoldable pub attempt : {A : Type 0} → Result E A → Tx E S A
  attempt (ok a) s = ok (a, s)
  attempt (err e) s = err e

infixl 5 ◌>>=◌ ◌>>◌
-- To unfold this is to unfold the actions too.
unfoldable pub ◌>>=◌ : {E S A B : Type 0} → Tx E S A → (A → Tx E S B) → Tx E S B
unfolding pure gets modify require expect attempt
◌>>=◌ m f s = elim (m s) [ ok r ↦ f r.0 r.1 | err e ↦ err e ]

abbrev pub ◌>>◌ : {E S A B : Type 0} → Tx E S A → Tx E S B → Tx E S B
m >> k = m >>= λ _. k

-- What holds of a call if it succeeds.
unfoldable pub Ensures : {E S A : Type 0} → (A → S → Type 0) → Result E (A × S) → Type 0
Ensures P (ok r) = P r.0 r.1
Ensures P (err e) = Unit

-- The call succeeds, and this holds of its result.
unfoldable pub Returns : {E S A : Type 0} → (A → S → Type 0) → Result E (A × S) → Type 0
Returns P (ok r) = P r.0 r.1
Returns P (err e) = ⊥

-- Rules for `Ensures`, one for each action that a `do` block begins with.
module _ {E S A B : Type 0} (Q : B → S → Type 0) where
  pub Ensures-bind :
      (P : A → S → Type 0) (m : Tx E S A) (f : A → Tx E S B) (s : S)
      → Ensures P (m s)
      → ((a : A) (t : S) → P a t → Ensures Q (f a t))
      → Ensures Q ((m >>= f) s)
  unfolding ◌>>=◌ Ensures
  Ensures-bind P m f s h k = go (m s) h
    where
      go :
          (r : Result E (A × S))
          → Ensures P r
          → Ensures Q (elim r [ ok x ↦ f x.0 x.1 | err e ↦ err e ])
      go (ok x) p = k x.0 x.1 p
      go (err e) p = tt

  pub Ensures-expect :
      (e : E) (o : Option A) (f : A → Tx E S B) (s : S)
      → ((a : A) → o ≡ some a → Ensures Q (f a s))
      → Ensures Q ((expect e o >>= f) s)
  unfolding ◌>>=◌ Ensures
  Ensures-expect e none f s h = tt
  Ensures-expect e (some a) f s h = h a refl

  pub Ensures-gets :
      (g : S → A) (f : A → Tx E S B) (s : S) → Ensures Q (f (g s) s) → Ensures Q ((gets g >>= f) s)
  unfolding ◌>>=◌
  Ensures-gets g f s h = h

module _ {E S B : Type 0} (Q : B → S → Type 0) where
  pub Ensures-require :
      (e : E) (b : Bool) (k : Unit {0} → Tx E S B) (s : S)
      → (b ≡ true → Ensures Q (k tt s))
      → Ensures Q ((require e b >>= k) s)
  unfolding ◌>>=◌ Ensures
  Ensures-require e true k s h = h refl
  Ensures-require e false k s h = tt

  pub Ensures-modify :
      (g : S → S) (k : Unit {0} → Tx E S B) (s : S)
      → Ensures Q (k tt (g s))
      → Ensures Q ((modify g >>= k) s)
  unfolding ◌>>=◌
  Ensures-modify g k s h = h

module _ {E S A B C : Type 0} where
  -- A block within a block.
  pub >>=_assoc :
      (m : Tx E S A) (f : A → Tx E S B) (k : B → Tx E S C) (s : S)
      → ((m >>= f) >>= k) s ≡ (m >>= λ a. f a >>= k) s
  unfolding ◌>>=◌
  >>=_assoc m f k s = ground arith

  pub Ensures-assoc :
      (Q : C → S → Type 0) (m : Tx E S A) (f : A → Tx E S B) (k : B → Tx E S C) (s : S)
      → Ensures Q ((m >>= λ a. f a >>= k) s)
      → Ensures Q (((m >>= f) >>= k) s)
  Ensures-assoc Q m f k s h = subst (Ensures Q) (sym (>>=_assoc m f k s)) h

module _ {E S A B : Type 0} where
  pub Ensures-pure_bind :
      (Q : B → S → Type 0) (a : A) (k : A → Tx E S B) (s : S)
      → Ensures Q (k a s)
      → Ensures Q ((pure a >>= k) s)
  unfolding ◌>>=◌
  Ensures-pure_bind Q a k s h = h

-- The last action of a block.
module _ (E : Type 0) {S : Type 0} where
  pub Ensures-pure :
      {B : Type 0} (Q : B → S → Type 0) (b : B) (s : S) → Q b s → Ensures Q (pure {E = E} b s)
  unfolding pure Ensures
  Ensures-pure Q b s h = h

  pub Ensures-last :
      (Q : Unit {0} → S → Type 0) (g : S → S) (s : S) → Q tt (g s) → Ensures Q (modify {E = E} g s)
  unfolding modify Ensures
  Ensures-last Q g s h = h

module _ {E S : Type 0} where
  pub Ensures-require_last :
      (Q : Unit {0} → S → Type 0) (e : E) (b : Bool) (s : S)
      → (b ≡ true → Q tt s)
      → Ensures Q (require e b s)
  unfolding require Ensures
  Ensures-require_last Q e true s h = h refl
  Ensures-require_last Q e false s h = tt

module _ {E S A : Type 0} where
  pub Ensures-expect_last :
      (Q : A → S → Type 0) (e : E) (o : Option A) (s : S)
      → ((a : A) → o ≡ some a → Q a s)
      → Ensures Q (expect e o s)
  unfolding expect Ensures
  Ensures-expect_last Q e none s h = tt
  Ensures-expect_last Q e (some a) s h = h a refl

  -- What a rule says of a call whose result is known.
  pub Ensures-of_eq :
      (P : A → S → Type 0) (r : Result E (A × S)) {a : A} {s : S}
      → Ensures P r
      → r ≡ ok (a, s)
      → P a s
  unfolding Ensures
  Ensures-of_eq P r h e = subst (Ensures P) e h

  pub Returns-eq_ok :
      (P : A → S → Type 0) (r : Result E (A × S))
      → Returns P r
      → (x : A × S) × (r ≡ ok x) × P x.0 x.1
  unfolding Returns
  Returns-eq_ok P (ok x) h = (x, refl, h)
  Returns-eq_ok P (err e) h = elim h [ ]

  pub Ensures-mono :
      (P Q : A → S → Type 0) (r : Result E (A × S))
      → ((a : A) (s : S) → P a s → Q a s)
      → Ensures P r
      → Ensures Q r
  unfolding Ensures
  Ensures-mono P Q (ok x) h p = h x.0 x.1 p
  Ensures-mono P Q (err e) h p = tt

  pub Ensures-both :
      (P Q : A → S → Type 0) (r : Result E (A × S))
      → Ensures P r
      → Ensures Q r
      → Ensures (λ a s. P a s × Q a s) r
  unfolding Ensures
  Ensures-both P Q (ok x) p q = (p, q)
  Ensures-both P Q (err e) p q = tt

  -- What holds anyway holds of a success.
  pub Ensures-anyway : (P : Type 0) (r : Result E (A × S)) → P → Ensures (λ _ _. P) r
  unfolding Ensures
  Ensures-anyway P (ok x) p = p
  Ensures-anyway P (err e) p = tt

-- A guard whose test is known.
module _ {E S B : Type 0} where
  pub require-false :
      (e : E) (b : Bool) (k : Unit {0} → Tx E S B) (s : S)
      → b ≡ false
      → (require e b >>= k) s ≡ err e
  unfolding ◌>>=◌
  require-false e true k s h = absurd (ground (arith, h))
  require-false e false k s h = refl

  pub require-true :
      (e : E) (b : Bool) (k : Unit {0} → Tx E S B) (s : S)
      → b ≡ true
      → (require e b >>= k) s ≡ k tt s
  unfolding ◌>>=◌
  require-true e true k s h = refl
  require-true e false k s h = absurd (ground (arith, h))

  -- The guard reads the state first.
  pub gets-require-false :
      (g : S → Bool) (e : E) (k : Unit {0} → Tx E S B) (s : S)
      → g s ≡ false
      → ((gets g >>= λ b. require e b) >>= k) s ≡ err e
  unfolding ◌>>=◌
  gets-require-false g e k s h = require-false e (g s) k s h
