-- ===== src/Base/Returning.antt =====
-- Rules for `Returns`, one for each action that a `do` block begins with.
use mathlib.Core.Path.{◌≡◌, sym, subst}
use mathlib.Core.Bool.{Bool, true}
use mathlib.Core.Option.{Option, some}
use i_am_human.Base.Transaction.{
  Result, ok, err, Tx, pure, gets, modify, require, expect, ◌>>=◌, Ensures, Returns, >>=_assoc,
}

module _ {E S A B : Type 0} (Q : B → S → Type 0) where
  pub Returns-bind :
      (P : A → S → Type 0) (m : Tx E S A) (f : A → Tx E S B) (s : S)
      → Returns P (m s)
      → ((a : A) (t : S) → P a t → Returns Q (f a t))
      → Returns Q ((m >>= f) s)
  unfolding ◌>>=◌ Returns
  Returns-bind P m f s h k = go (m s) h
    where
      go :
          (r : Result E (A × S))
          → Returns P r
          → Returns Q (elim r [ ok x ↦ f x.0 x.1 | err e ↦ err e ])
      go (ok x) p = k x.0 x.1 p
      go (err e) p = elim p [ ]

  pub Returns-expect :
      (e : E) (o : Option A) (f : A → Tx E S B) (s : S) (a : A)
      → o ≡ some a
      → Returns Q (f a s)
      → Returns Q ((expect e o >>= f) s)
  unfolding ◌>>=◌ Returns
  Returns-expect e o f s a h q = rw h q

  pub Returns-gets :
      (g : S → A) (f : A → Tx E S B) (s : S) → Returns Q (f (g s) s) → Returns Q ((gets g >>= f) s)
  unfolding ◌>>=◌
  Returns-gets g f s h = h

module _ {E S B : Type 0} (Q : B → S → Type 0) where
  pub Returns-require :
      (e : E) (b : Bool) (k : Unit {0} → Tx E S B) (s : S)
      → b ≡ true
      → Returns Q (k tt s)
      → Returns Q ((require e b >>= k) s)
  unfolding ◌>>=◌ Returns
  Returns-require e b k s h q = rw h q

  pub Returns-modify :
      (g : S → S) (k : Unit {0} → Tx E S B) (s : S)
      → Returns Q (k tt (g s))
      → Returns Q ((modify g >>= k) s)
  unfolding ◌>>=◌
  Returns-modify g k s h = h

module _ {E S A B C : Type 0} where
  pub Returns-assoc :
      (Q : C → S → Type 0) (m : Tx E S A) (f : A → Tx E S B) (k : B → Tx E S C) (s : S)
      → Returns Q ((m >>= λ a. f a >>= k) s)
      → Returns Q (((m >>= f) >>= k) s)
  Returns-assoc Q m f k s h = subst (Returns Q) (sym (>>=_assoc m f k s)) h

module _ (E : Type 0) {S : Type 0} where
  pub Returns-pure :
      {B : Type 0} (Q : B → S → Type 0) (b : B) (s : S) → Q b s → Returns Q (pure {E = E} b s)
  unfolding pure Returns
  Returns-pure Q b s h = h

  pub Returns-last :
      (Q : Unit {0} → S → Type 0) (g : S → S) (s : S) → Q tt (g s) → Returns Q (modify {E = E} g s)
  unfolding modify Returns
  Returns-last Q g s h = h

module _ {E S A : Type 0} where
  -- A call that succeeds has what holds of it if it succeeds.
  pub Returns-Ensures :
      (P Q : A → S → Type 0) (r : Result E (A × S))
      → Returns P r
      → Ensures Q r
      → Returns (λ a s. P a s × Q a s) r
  unfolding Returns Ensures
  Returns-Ensures P Q (ok x) p q = (p, q)
  Returns-Ensures P Q (err e) p q = p

  pub Returns-mono :
      (P Q : A → S → Type 0) (r : Result E (A × S))
      → ((a : A) (s : S) → P a s → Q a s)
      → Returns P r
      → Returns Q r
  unfolding Returns
  Returns-mono P Q (ok x) h p = h x.0 x.1 p
  Returns-mono P Q (err e) h p = p
