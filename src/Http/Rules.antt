-- ===== src/Http/Rules.antt =====
-- What a method ensures, with one rule for each way in which a `do` block goes on.
use mathlib.Core.Path.{subst}
use imghost.Prelude.{◌≡◌, refl, sym, ap, Bool, true, false, Option, none, some, if◌then◌else◌}
use imghost.Http.{Exception, Result, ok, raise, Exec, ◌>>=◌, gets, lift, or_raise, raise_if}

-- What holds of an answer and the state left with it: `Q` where the method returns, `E` where it
-- raises.
abbrev pub Ensures :
    {S A : Type 0} → (A → S → Type 0) → (Exception → S → Type 0) → Result A × S → Type 0
Ensures Q E (ok a, s) = Q a s
Ensures Q E (raise e, s) = E e s

module _ {S A B : Type 0} (Q : A → S → Type 0) (E : Exception → S → Type 0)
    (Q' : B → S → Type 0) where
  continue_from :
      (r : Result A × S) (f : A → Exec S B)
      → Ensures Q E r
      → ((a : A) (s : S) → Q a s → Ensures Q' E (f a s))
      → Ensures Q' E (elim r.0 [ ok a ↦ f a r.1 | raise e ↦ (raise e, r.1) ])
  continue_from (ok a, s) f h k = k a s h
  continue_from (raise e, s) f h k = h

  -- The rule for `a ← m; f a`.
  pub Ensures-bind :
      (m : Exec S A) (f : A → Exec S B) (s : S)
      → Ensures Q E (m s)
      → ((a : A) (s' : S) → Q a s' → Ensures Q' E (f a s'))
      → Ensures Q' E ((m >>= f) s)
  unfolding ◌>>=◌
  Ensures-bind m f s h k = continue_from (m s) f h k

module _ {S A : Type 0} (Q : A → S → Type 0) (E : Exception → S → Type 0) where
  pub of_Ensures-ok : (r : Result A × S) {a : A} {s : S} → Ensures Q E r → r ≡ (ok a, s) → Q a s
  of_Ensures-ok r h e = subst (Ensures Q E) e h

  pub Ensures-imp :
      (E' : Exception → S → Type 0) (r : Result A × S)
      → Ensures Q E r
      → ((e : Exception) (s : S) → E e s → E' e s)
      → Ensures Q E' r
  Ensures-imp E' (ok a, s) h k = h
  Ensures-imp E' (raise e, s) h k = k e s h

  pub of_Ensures-raise :
      (r : Result A × S) {x : Exception} {s : S} → Ensures Q E r → r ≡ (raise x, s) → E x s
  of_Ensures-raise r h e = subst (Ensures Q E) e h

module _ {S A B : Type 0} (E : Exception → S → Type 0) (Q : B → S → Type 0) where
  -- A step whose answer is known.
  pub Ensures-ok :
      (m : Exec S A) (f : A → Exec S B) (s : S) (a : A) (s' : S)
      → m s ≡ (ok a, s')
      → Ensures Q E (f a s')
      → Ensures Q E ((m >>= f) s)
  Ensures-ok m f s a s' e h =
      Ensures-bind (λ b t. Ensures Q E (f b t)) E Q m f s
        (subst (Ensures (λ b t. Ensures Q E (f b t)) E) (sym e) h) (λ b t k. k)

  -- A step that is known to raise.
  pub Ensures-raise :
      (m : Exec S A) (f : A → Exec S B) (s : S) (x : Exception) (s' : S)
      → m s ≡ (raise x, s')
      → E x s'
      → Ensures Q E ((m >>= f) s)
  Ensures-raise m f s x s' e h =
      Ensures-bind (λ b t. Ensures Q E (f b t)) E Q m f s
        (subst (Ensures (λ b t. Ensures Q E (f b t)) E) (sym e) h) (λ b t k. k)

  pub Ensures-gets :
      (g : S → A) (f : A → Exec S B) (s : S)
      → Ensures Q E (f (g s) s)
      → Ensures Q E ((gets g >>= f) s)
  unfolding ◌>>=◌
  Ensures-gets g f s h = h

  pub Ensures-or_raise :
      (o : Option A) (e : Exception) (f : A → Exec S B) (s : S)
      → ((a : A) → o ≡ some a → Ensures Q E (f a s))
      → (o ≡ none → E e s)
      → Ensures Q E ((or_raise o e >>= f) s)
  unfolding ◌>>=◌
  Ensures-or_raise none e f s k h = h refl
  Ensures-or_raise (some a) e f s k h = k a refl

  pub Ensures-lift :
      (r : Result A) (f : A → Exec S B) (s : S)
      → ((a : A) → r ≡ ok a → Ensures Q E (f a s))
      → ((e : Exception) → r ≡ raise e → E e s)
      → Ensures Q E ((lift r >>= f) s)
  unfolding ◌>>=◌
  Ensures-lift (ok a) f s k h = k a refl
  Ensures-lift (raise e) f s k h = h e refl

module _ {S B : Type 0} (E : Exception → S → Type 0) (Q : B → S → Type 0) where
  pub Ensures-raise_if :
      (test : Bool) (e : Exception) (f : Unit {0} → Exec S B) (s : S)
      → (test ≡ false → Ensures Q E (f tt s))
      → (test ≡ true → E e s)
      → Ensures Q E ((raise_if test e >>= f) s)
  unfolding ◌>>=◌
  Ensures-raise_if true e f s k h = h refl
  Ensures-raise_if false e f s k h = k refl

-- A method that ensures that it does not raise returns.
pub returns_of_Ensures :
    {S A : Type 0} (Q : A → S → Type 0) (r : Result A × S)
    → Ensures Q (λ _ _. ⊥) r
    → (a : A) × (s : S) × (r ≡ (ok a, s)) × Q a s
returns_of_Ensures Q (ok a, s) h = (a, s, refl, h)
returns_of_Ensures Q (raise e, s) h = absurd h

-- What holds of the state left, whichever way the method ends.
pub Ensures-of_state :
    {S A : Type 0} (P : S → Type 0) (r : Result A × S) → P r.1 → Ensures (λ _ s. P s) (λ _ s. P s) r
Ensures-of_state P (ok a, s) h = h
Ensures-of_state P (raise e, s) h = h

-- A fact that is known beforehand is kept with what a method ensures.
pub Ensures-with :
    {S A C : Type 0} (Q : A → S → Type 0) (E : Exception → S → Type 0) (r : Result A × S)
    → C
    → Ensures Q E r
    → Ensures (λ a s. Q a s × C) E r
Ensures-with Q E (ok a, s) c h = (h, c)
Ensures-with Q E (raise e, s) c h = h

pub Ensures-weaker :
    {S A : Type 0} (Q Q' : A → S → Type 0) (E : Exception → S → Type 0) (r : Result A × S)
    → Ensures Q E r
    → ((a : A) (s : S) → Q a s → Q' a s)
    → Ensures Q' E r
Ensures-weaker Q Q' E (ok a, s) h k = k a s h
Ensures-weaker Q Q' E (raise e, s) h k = h

module _ {S A B : Type 0} (m : Exec S A) (f : A → Exec S B) (s : S) where
  -- A step whose answer is known.
  pub bind-ok : {a : A} {s' : S} → m s ≡ (ok a, s') → (m >>= f) s ≡ f a s'
  unfolding ◌>>=◌
  bind-ok e =
      ap
        (λ (r : Result A × S). elim r.0 as (λ _. Result B × S) [
          | ok a ↦ f a r.1
          | raise x ↦ (raise x, r.1)
        ])
        e

  pub bind-raise : {x : Exception} {s' : S} → m s ≡ (raise x, s') → (m >>= f) s ≡ (raise x, s')
  unfolding ◌>>=◌
  bind-raise e =
      ap
        (λ (r : Result A × S). elim r.0 as (λ _. Result B × S) [
          | ok a ↦ f a r.1
          | raise x ↦ (raise x, r.1)
        ])
        e

-- The rule for `if test then m else n`.
pub Ensures-if :
    {S A : Type 0} (Q : A → S → Type 0) (E : Exception → S → Type 0) (test : Bool) (m n : Exec S A)
    (s : S)
    → (test ≡ true → Ensures Q E (m s))
    → (test ≡ false → Ensures Q E (n s))
    → Ensures Q E ((if test then m else n) s)
Ensures-if Q E true m n s h k = h refl
Ensures-if Q E false m n s h k = k refl
