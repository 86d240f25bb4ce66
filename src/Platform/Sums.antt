-- ===== src/Platform/Sums.antt =====
-- Sums over the rows that a query returns.
use layer_backend.Base.{
  Bool, false, List, [], ◌∷◌, map, ◌≡◌, refl, ap, ◌∙◌, select, Bool-cases, inl, inr,
}
use layer_backend.Base.Int.{ℤ, pos, ◌+ℤ◌, int_laws}
use layer_backend.Base.Rows
use layer_backend.Platform.{insert_with, sort_with}

-- The sum of a number over a list.
unfoldable pub sum_of {ℓ} : {A : Type ℓ} → (A → ℤ) → List A → ℤ
sum_of f [] = pos 0
sum_of f (x ∷ xs) = f x +ℤ sum_of f xs

module _ {A : Type 0} where
  sum_of-insert :
      (f : A → ℤ) (before : A → A → Bool) (x : A) (ys : List A)
      → sum_of f (insert_with before x ys) ≡ f x +ℤ sum_of f ys
  unfolding sum_of
  sum_of-insert f before x [] = refl
  sum_of-insert f before x (y ∷ ys) = elim (Bool-cases (before x y)) [
    | inl h ↦ rw h refl
    | inr h ↦ rw h (grind (int_laws, sum_of-insert f before x ys))
  ]

  pub sum_of-sort :
      (f : A → ℤ) (before : A → A → Bool) (xs : List A)
      → sum_of f (sort_with before xs) ≡ sum_of f xs
  unfolding sum_of
  sum_of-sort f before [] = refl
  sum_of-sort f before (x ∷ xs) =
      sum_of-insert f before x (sort_with before xs) ∙ ap (λ s. f x +ℤ s) (sum_of-sort f before xs)

module _ {A B : Type 0} where
  pub sum_of-map :
      (h : B → ℤ) (f : A → B) (xs : List A) → sum_of h (map f xs) ≡ sum_of (λ x. h (f x)) xs
  unfolding sum_of
  sum_of-map h f [] = refl
  sum_of-map h f (x ∷ xs) = ap (λ s. h (f x) +ℤ s) (sum_of-map h f xs)

module _ {K R : Type 0} (test : K × R → Bool) (f : K → R → ℤ) where
  -- A sum over the rows that pass a test, if the others add nothing.
  pub sum_of-select :
      (rows : List (K × R))
      → ((r : K × R) → test r ≡ false → f r.0 r.1 ≡ pos 0)
      → sum_of (λ r. f r.0 r.1) (select test rows) ≡ Rows.total f rows
  unfolding sum_of Rows.total
  sum_of-select [] nothing = refl
  sum_of-select (r ∷ rows) nothing = elim (Bool-cases (test r)) [
    | inl h ↦ rw h (ap (λ s. f r.0 r.1 +ℤ s) (sum_of-select rows nothing))
    | inr h ↦ rw (h, nothing r h) (grind (int_laws, sum_of-select rows nothing))
  ]
