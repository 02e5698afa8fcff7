-- ===== src/Http.antt =====
-- Errors as values: `HTTPException` of FastAPI, and the other exceptions that the modelled code
-- raises or catches. A stateful method returns `Result A × S`, since what it wrote before it raised
-- stays written.
pub mod Rules
use imghost.Prelude.{ℕ, ◌≡◌, ◌⊎◌, inl, inr, refl, String, Bool, true, false, Option, none, some}

pub data Exception : Type 0 where
  -- HTTPException(status_code=…, detail=…)
  http : ℕ → String → Exception
  -- LookupError(…), KeyError(…), and any other exception with its text
  lookup_error key_error other : String → Exception

pub data Result {ℓ} (A : Type ℓ) : Type ℓ where
  ok : A → Result A
  raise : Exception → Result A

pub Result-cases {ℓ} :
    {A : Type ℓ} (r : Result A) → ((a : A) × (r ≡ ok a)) ⊎ ((e : Exception) × (r ≡ raise e))
Result-cases (ok a) = inl (a, refl)
Result-cases (raise e) = inr (e, refl)

-- A method of an object whose state is `S`.
abbrev pub Exec : Type 0 → Type 0 → Type 0
Exec S A = S → Result A × S

module _ {S A B : Type 0} where
  infixl 10 ◌>>=◌ ◌>>◌
  unfoldable pub ◌>>=◌ : Exec S A → (A → Exec S B) → Exec S B
  ◌>>=◌ m f s = elim (m s).0 [ ok a ↦ f a (m s).1 | raise e ↦ (raise e, (m s).1) ]

  abbrev pub ◌>>◌ : Exec S A → Exec S B → Exec S B
  m >> n = m >>= λ _. n

module _ {S A : Type 0} where
  abbrev pub pure : A → Exec S A
  pure a s = (ok a, s)

  abbrev pub throw : Exception → Exec S A
  throw e s = (raise e, s)

  abbrev pub lift : Result A → Exec S A
  lift r s = (r, s)

  abbrev pub gets : (S → A) → Exec S A
  gets f s = (ok (f s), s)

-- `raise … if test`
abbrev pub raise_if : {S : Type 0} → Bool → Exception → Exec S (Unit {0})
raise_if true e = throw e
raise_if false e = pure tt

-- `if value is None: raise …`
abbrev pub or_raise : {S A : Type 0} → Option A → Exception → Exec S A
or_raise none e = throw e
or_raise (some a) e = pure a
