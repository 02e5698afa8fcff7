-- ===== src/Prelude/Lists.antt =====
-- Lists measured and filtered over the native numbers and Boolean tests.
use Prim.Native.Nat.{ℕ, suc, ◌+◌, ◌≤◌}
use mathlib.Core.Path.{◌≡◌, refl, sym, ap, ◌∙◌}
use mathlib.Core.Bool.{Bool, true}
use mathlib.Core.Option.{Option, none, some}
use mathlib.Core.List.{List, [], ◌∷◌, ◌++◌, map}
use mathlib.Core.Logic.{inl, inr}
use native.Mathlib.Omega.{arith}
use imghost.Prelude.Tests.{Bool-cases, if◌then◌else◌}

module _ {ℓ} {A : Type ℓ} where
  abbrev pub length : List A → ℕ
  length [] = 0
  length (x ∷ xs) = suc (length xs)

  pub length-append : (xs ys : List A) → length (xs ++ ys) ≡ length xs + length ys
  length-append [] ys = omega arith
  length-append (x ∷ xs) ys = omega (arith, length-append xs ys)

  -- A comprehension `[x for x in xs if test(x)]`.
  unfoldable pub keep : (A → Bool) → List A → List A
  keep test [] = []
  keep test (x ∷ xs) = if test x then x ∷ keep test xs else keep test xs

  pub keep-append :
      (test : A → Bool) (xs ys : List A) → keep test (xs ++ ys) ≡ keep test xs ++ keep test ys
  unfolding keep
  keep-append test [] ys = refl
  keep-append test (x ∷ xs) ys = ground (arith, keep-append test xs ys)

  pub length-keep-le : (test : A → Bool) (xs : List A) → length (keep test xs) ≤ length xs
  unfolding keep
  length-keep-le test [] = omega arith
  length-keep-le test (x ∷ xs) = ground (arith, length-keep-le test xs)

  -- The first element that passes, as a query by primary key returns.
  unfoldable pub find : (A → Bool) → List A → Option A
  find test [] = none
  find test (x ∷ xs) = if test x then some x else find test xs

  -- A predicate on every element, by recursion.
  abbrev pub All {κ} : (A → Type κ) → List A → Type κ
  All P [] = Unit
  All P (x ∷ xs) = P x × All P xs

  pub All-append {κ} : (P : A → Type κ) (xs ys : List A) → All P xs → All P ys → All P (xs ++ ys)
  All-append P [] ys hx hy = hy
  All-append P (x ∷ xs) ys hx hy = (hx.0, All-append P xs ys hx.1 hy)

  -- `sum(size(x) for x in xs)`
  abbrev pub sum_by : (A → ℕ) → List A → ℕ
  sum_by size [] = 0
  sum_by size (x ∷ xs) = size x + sum_by size xs

  pub sum_by-append :
      (size : A → ℕ) (xs ys : List A) → sum_by size (xs ++ ys) ≡ sum_by size xs + sum_by size ys
  sum_by-append size [] ys = omega arith
  sum_by-append size (x ∷ xs) ys = omega (arith, sum_by-append size xs ys)

  pub keep-All {κ} :
      (P : A → Type κ) (test : A → Bool) (xs : List A) → All P xs → All P (keep test xs)
  unfolding keep
  keep-All P test [] a = tt
  keep-All P test (x ∷ xs) a = elim (Bool-cases (test x)) [
    | inl p ↦ rw p (a.0, keep-All P test xs a.1)
    | inr p ↦ rw p (keep-All P test xs a.1)
  ]

  pub keep_of_All :
      (test : A → Bool) (xs : List A) → All (λ x. test x ≡ true) xs → keep test xs ≡ xs
  unfolding keep
  keep_of_All test [] a = refl
  keep_of_All test (x ∷ xs) a = rw (a.0, keep_of_All test xs a.1)

  pub keep_passes : (test : A → Bool) (xs : List A) → All (λ x. test x ≡ true) (keep test xs)
  unfolding keep
  keep_passes test [] = tt
  keep_passes test (x ∷ xs) = elim (Bool-cases (test x)) [
    | inl p ↦ rw p (p, keep_passes test xs)
    | inr p ↦ rw p (keep_passes test xs)
  ]

  -- A map that the test does not see may be done before or after it.
  pub keep-map :
      (test : A → Bool) (f : A → A) (xs : List A)
      → ((x : A) → test (f x) ≡ test x)
      → keep test (map f xs) ≡ map f (keep test xs)
  unfolding keep
  keep-map test f [] h = refl
  keep-map test f (x ∷ xs) h = elim (Bool-cases (test x)) [
    | inl p ↦ rw (h x, p) (ap (◌∷◌ (f x)) (keep-map test f xs h))
    | inr p ↦ rw (h x, p) (keep-map test f xs h)
  ]

  pub All-imp : (P Q : A → Type 0) (xs : List A) → ((x : A) → P x → Q x) → All P xs → All Q xs
  All-imp P Q [] f a = tt
  All-imp P Q (x ∷ xs) f a = (f x a.0, All-imp P Q xs f a.1)

  -- An element is found at the end where nothing was found before.
  pub find-append_none :
      (test : A → Bool) (xs : List A) (x : A)
      → find test xs ≡ none
      → test x ≡ true
      → find test (xs ++ x ∷ []) ≡ some x
  unfolding find
  find-append_none test [] x h k = rw k refl
  find-append_none test (y ∷ xs) x h k = elim (Bool-cases (test y)) [
    | inl p ↦ absurd (cc (simp p at h))
    | inr p ↦ rw p (find-append_none test xs x (simp p at h) k)
  ]

  -- What is found passes the test.
  pub find-passes : (test : A → Bool) (xs : List A) {x : A} → find test xs ≡ some x → test x ≡ true
  unfolding find
  find-passes test [] h = cc h
  find-passes test (y ∷ xs) {x = x} h = elim (Bool-cases (test y)) [
    | inl p ↦ ap test (sym (some_inj (simp p at h))) ∙ p
    | inr p ↦ find-passes test xs (simp p at h)
  ]
    where
      some_inj : some y ≡ some x → y ≡ x
      some_inj e = cc e
