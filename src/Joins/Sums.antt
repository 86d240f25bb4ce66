-- ===== src/Joins/Sums.antt =====
-- Sums over joined rows.
use layer_backend.Base.{
  Bool, true, Option, none, some, List, [], ◌∷◌, map, ◌≡◌, refl, ap, arith, All,
}
use layer_backend.Base.Int.{ℤ, ◌+ℤ◌}
use layer_backend.Platform.Sums.{sum_of}
use layer_backend.Joins.{all_some}

module _ {B : Type 0} where
  pub all_some-parts :
      (o : Option B) (os : List (Option B)) (ys : List B)
      → all_some (o ∷ os) ≡ some ys
      → (y : B) × (zs : List B) × (o ≡ some y) × (all_some os ≡ some zs) × (ys ≡ y ∷ zs)
  all_some-parts none os ys e = cc
  all_some-parts (some y) os ys e = go (all_some os) refl e
    where
      go :
          (r : Option (List B))
          → all_some os ≡ r
          → elim r [ none ↦ none | some zs ↦ some (y ∷ zs) ] ≡ some ys
          → (z : B) × (zs : List B) × (some y ≡ some z) × (all_some os ≡ some zs) × (ys ≡ z ∷ zs)
      go none h k = cc
      go (some zs) h k = (y, zs, refl, h, ground (arith, k))

module _ {A B : Type 0} where
  -- What every joined row adds is what its row adds.
  pub sum_of-all_some :
      (own : A → Bool) (f : A → Option B) (g : A → ℤ) (h : B → ℤ) (xs : List A) (ys : List B)
      → All (λ x. own x ≡ true) xs
      → ((x : A) (y : B) → own x ≡ true → f x ≡ some y → h y ≡ g x)
      → all_some (map f xs) ≡ some ys
      → sum_of h ys ≡ sum_of g xs
  unfolding sum_of
  sum_of-all_some own f g h [] ys test adds e = ground (arith, e)
  sum_of-all_some own f g h (x ∷ xs) ys test adds e =
      let (y, zs, is_y, is_zs, is_ys) = all_some-parts (f x) (map f xs) ys e in
      rw (is_ys, adds x y test.0 is_y)
        (ap (λ s. g x +ℤ s) (sum_of-all_some own f g h xs zs test.1 adds is_zs))
