-- ===== src/Prelude/Sorting.antt =====
-- `ORDER BY key`, as an insertion sort that keeps the order of rows with equal keys.
use mathlib.Core.List.Permᴰ
use mathlib.Core.List.{Permᴰ}
use mathlib.Core.Path.{subst}
use imghost.Prelude.{
  ◌+◌, ◌≤◌, ◌≡◌, refl, ◌∙◌, ◌⊎◌, inl, inr, true, List, [], ◌∷◌, ◌++◌, All, arith, Bool-cases,
  if◌then◌else◌,
}
use imghost.Prelude.Int.{ℤ, pos_part, neg_part, leb_ℤ, ltb_ℤ, ◌≤ℤ◌}

module _ {A : Type 0} where
  -- A relation between each element and every later one.
  abbrev pub AllPairs : (A → A → Type 0) → List A → Type 0
  AllPairs R [] = Unit
  AllPairs R (x ∷ xs) = All (R x) xs × AllPairs R xs

  -- A predicate on the elements goes along a permutation.
  pub All-Permᴰ : (P : A → Type 0) {xs ys : List A} → Permᴰ xs ys → All P xs → All P ys
  All-Permᴰ P Permᴰ.nil h = h
  All-Permᴰ P (Permᴰ.cons e p) h = (subst P e h.0, All-Permᴰ P p h.1)
  All-Permᴰ P (Permᴰ.swap e f) h = (subst P f h.1.0, (subst P e h.0, h.1.1))
  All-Permᴰ P (Permᴰ.trans p q) h = All-Permᴰ P q (All-Permᴰ P p h)

  module _ (R : A → A → Type 0) (symm : (x y : A) → R x y → R y x) where
    -- So does a symmetric relation between any two.
    pub AllPairs-Permᴰ : {xs ys : List A} → Permᴰ xs ys → AllPairs R xs → AllPairs R ys
    AllPairs-Permᴰ Permᴰ.nil h = h
    AllPairs-Permᴰ (Permᴰ.cons {l₂} e p) h =
        (subst (λ a. All (R a) l₂) e (All-Permᴰ (R _) p h.0), AllPairs-Permᴰ p h.1)
    AllPairs-Permᴰ (Permᴰ.swap {a} {b} {a'} {l} e f) h =
        subst (λ c. AllPairs R (a' ∷ c ∷ l)) e
          (subst (λ c. AllPairs R (c ∷ a ∷ l)) f ((symm a b h.0.0, h.1.0), (h.0.1, h.1.1)))
    AllPairs-Permᴰ (Permᴰ.trans p q) h = AllPairs-Permᴰ q (AllPairs-Permᴰ p h)

module _ {A : Type 0} (key : A → ℤ) where
  unfoldable pub insert_by : A → List A → List A
  insert_by x [] = x ∷ []
  insert_by x (y ∷ ys) = if leb_ℤ (key x) (key y) then x ∷ y ∷ ys else y ∷ insert_by x ys

  unfoldable pub order_by : List A → List A
  unfolding insert_by
  order_by [] = []
  order_by (x ∷ xs) = insert_by x (order_by xs)

  -- In the order of the keys.
  abbrev pub SortedBy : List A → Type 0
  SortedBy [] = Unit
  SortedBy (x ∷ xs) = All (λ y. key x ≤ℤ key y) xs × SortedBy xs

  -- Any two keys are two or more apart.
  abbrev pub Apart : A → A → Type 0
  Apart x y =
      (pos_part (key x) + neg_part (key y) + 2 ≤ pos_part (key y) + neg_part (key x))
      ⊎ (pos_part (key y) + neg_part (key x) + 2 ≤ pos_part (key x) + neg_part (key y))

  abbrev pub AllApart : List A → Type 0
  AllApart = AllPairs Apart

  insert_by-Permᴰ : (x : A) (ys : List A) → Permᴰ (insert_by x ys) (x ∷ ys)
  unfolding insert_by
  insert_by-Permᴰ x [] = Permᴰ.refl (x ∷ [])
  insert_by-Permᴰ x (y ∷ ys) = elim (Bool-cases (leb_ℤ (key x) (key y))) [
    | inl p ↦ rw p (Permᴰ.refl (x ∷ y ∷ ys))
    | inr p ↦ rw p (Permᴰ.trans (Permᴰ.cons refl (insert_by-Permᴰ x ys)) (Permᴰ.swap refl refl))
  ]

  pub order_by-Permᴰ : (xs : List A) → Permᴰ (order_by xs) xs
  unfolding order_by
  order_by-Permᴰ [] = Permᴰ.refl []
  order_by-Permᴰ (x ∷ xs) =
      Permᴰ.trans (insert_by-Permᴰ x (order_by xs)) (Permᴰ.cons refl (order_by-Permᴰ xs))

  insert_by-All : (P : A → Type 0) (x : A) (ys : List A) → P x → All P ys → All P (insert_by x ys)
  unfolding insert_by
  insert_by-All P x [] px h = (px, tt)
  insert_by-All P x (y ∷ ys) px h = elim (Bool-cases (leb_ℤ (key x) (key y))) [
    | inl p ↦ rw p (px, h)
    | inr p ↦ rw p (h.0, insert_by-All P x ys px h.1)
  ]

  le-All :
      (x y : A) (ys : List A)
      → key x ≤ℤ key y
      → All (λ z. key y ≤ℤ key z) ys
      → All (λ z. key x ≤ℤ key z) ys
  le-All x y [] h a = tt
  le-All x y (z ∷ ys) h a = (omega arith, le-All x y ys h a.1)

  insert_by-SortedBy : (x : A) (ys : List A) → SortedBy ys → SortedBy (insert_by x ys)
  unfolding insert_by
  insert_by-SortedBy x [] s = (tt, tt)
  insert_by-SortedBy x (y ∷ ys) s = elim (Bool-cases (leb_ℤ (key x) (key y))) [
    | inl p ↦ rw p ((ground arith, le-All x y ys (ground arith) s.0), s)
    | inr p ↦
        rw p
          (insert_by-All (λ z. key y ≤ℤ key z) x ys (ground arith) s.0, insert_by-SortedBy x ys s.1)
  ]

  pub order_by-SortedBy : (xs : List A) → SortedBy (order_by xs)
  unfolding order_by
  order_by-SortedBy [] = tt
  order_by-SortedBy (x ∷ xs) = insert_by-SortedBy x (order_by xs) (order_by-SortedBy xs)

  -- Sorting what is in order changes nothing.
  pub order_by_of_SortedBy : (xs : List A) → SortedBy xs → order_by xs ≡ xs
  unfolding order_by
  order_by_of_SortedBy [] s = refl
  order_by_of_SortedBy (x ∷ []) s = refl
  order_by_of_SortedBy (x ∷ y ∷ xs) s = rw (order_by_of_SortedBy (y ∷ xs) s.1) (ground arith)

  Apart-symm : (x y : A) → Apart x y → Apart y x
  Apart-symm x y (inl h) = inr h
  Apart-symm x y (inr h) = inl h

  pub AllApart-Permᴰ : {xs ys : List A} → Permᴰ xs ys → AllApart xs → AllApart ys
  AllApart-Permᴰ = AllPairs-Permᴰ Apart Apart-symm

  insert_by_swap :
      (x y : A) (zs : List A)
      → Apart x y
      → insert_by x (insert_by y zs) ≡ insert_by y (insert_by x zs)
  unfolding insert_by
  insert_by_swap x y [] h = ground arith
  insert_by_swap x y (z ∷ zs) h = ground (arith, insert_by_swap x y zs h)

  -- Where all keys differ by two or more, the order of the rows before the sort does not matter.
  pub order_by-Permᴰ_eq : {xs ys : List A} → Permᴰ xs ys → AllApart xs → order_by xs ≡ order_by ys
  unfolding order_by
  order_by-Permᴰ_eq Permᴰ.nil h = refl
  order_by-Permᴰ_eq (Permᴰ.cons e p) h = rw (e, order_by-Permᴰ_eq p h.1)
  order_by-Permᴰ_eq (Permᴰ.swap {l} e f) h = rw (← e, ← f) (insert_by_swap _ _ (order_by l) h.0.0)
  order_by-Permᴰ_eq (Permᴰ.trans p q) h =
      order_by-Permᴰ_eq p h ∙ order_by-Permᴰ_eq q (AllApart-Permᴰ p h)

  -- A row whose key lies above all others, inserted last, comes last.
  insert_by-append_last :
      (x y : A) (ys : List A)
      → ltb_ℤ (key x) (key y) ≡ true
      → insert_by x (ys ++ y ∷ []) ≡ insert_by x ys ++ y ∷ []
  unfolding insert_by
  insert_by-append_last x y [] h = ground arith
  insert_by-append_last x y (z ∷ ys) h = ground (arith, insert_by-append_last x y ys h)

  pub order_by-append_last :
      (xs : List A) (y : A)
      → All (λ x. ltb_ℤ (key x) (key y) ≡ true) xs
      → order_by (xs ++ y ∷ []) ≡ order_by xs ++ y ∷ []
  unfolding order_by
  order_by-append_last [] y a = refl
  order_by-append_last (x ∷ xs) y a =
      rw (order_by-append_last xs y a.1) (insert_by-append_last x y (order_by xs) a.0)
