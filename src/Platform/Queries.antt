-- ===== src/Platform/Queries.antt =====
-- What the queries for many rows return, from the laws of the Prisma client.
use layer_backend.Base.{
  ℕ, Bool, true, false, Option, none, some, List, [], ◌∷◌, ◌≡◌, ◌≤◌, arith, if◌then◌else◌, leb,
  length, All, All-take, All-select, length-take-le, suc, refl, ap, ◌∙◌,
}
use layer_backend.Base.Rows.{Key}
use layer_backend.Platform.{Model, insert_by, sort_by, insert_with, sort_with, limit}

module _ {A : Type 0} (P : A → Type 0) where
  All-insert :
      (b : Bool) (x y : A) (before after : List A)
      → All P (x ∷ y ∷ before)
      → All P (y ∷ after)
      → All P (if b then x ∷ y ∷ before else y ∷ after)
  All-insert true x y before after h k = h
  All-insert false x y before after h k = k

  All-insert_with :
      (before : A → A → Bool) (x : A) (ys : List A)
      → P x
      → All P ys
      → All P (insert_with before x ys)
  All-insert_with before x [] h k = (h, tt)
  All-insert_with before x (y ∷ ys) h k =
      All-insert (before x y) x y ys _ (h, k) (k.0, All-insert_with before x ys h k.1)

  All-sort_with : (before : A → A → Bool) (xs : List A) → All P xs → All P (sort_with before xs)
  All-sort_with before [] h = tt
  All-sort_with before (x ∷ xs) h =
      All-insert_with before x (sort_with before xs) h.0 (All-sort_with before xs h.1)

  All-insert_by :
      (column : A → ℕ) (x : A) (ys : List A) → P x → All P ys → All P (insert_by column x ys)
  All-insert_by column x [] h k = (h, tt)
  All-insert_by column x (y ∷ ys) h k =
      All-insert (leb (column x) (column y)) x y ys _ (h, k) (k.0, All-insert_by column x ys h k.1)

  pub All-sort_by : (column : A → ℕ) (xs : List A) → All P xs → All P (sort_by column xs)
  All-sort_by column [] h = tt
  All-sort_by column (x ∷ xs) h =
      All-insert_by column x (sort_by column xs) h.0 (All-sort_by column xs h.1)

  pub All-limit : (n : Option ℕ) (xs : List A) → All P xs → All P (limit n xs)
  All-limit none xs h = h
  All-limit (some n) xs h = All-take P n xs h

module _ {A : Type 0} where
  length-insert_by :
      (column : A → ℕ) (x : A) (ys : List A) → length (insert_by column x ys) ≡ suc (length ys)
  length-insert_by column x [] = refl
  length-insert_by column x (y ∷ ys) = ground (arith, length-insert_by column x ys)

  pub length-sort_by : (column : A → ℕ) (xs : List A) → length (sort_by column xs) ≡ length xs
  length-sort_by column [] = refl
  length-sort_by column (x ∷ xs) =
      length-insert_by column x (sort_by column xs) ∙ ap suc (length-sort_by column xs)

  length-insert_with :
      (before : A → A → Bool) (x : A) (ys : List A)
      → length (insert_with before x ys) ≡ suc (length ys)
  length-insert_with before x [] = refl
  length-insert_with before x (y ∷ ys) = ground (arith, length-insert_with before x ys)

  pub length-sort_with :
      (before : A → A → Bool) (xs : List A) → length (sort_with before xs) ≡ length xs
  length-sort_with before [] = refl
  length-sort_with before (x ∷ xs) =
      length-insert_with before x (sort_with before xs) ∙ ap suc (length-sort_with before xs)

module _ {K R : Type 0} {key : Key K} (m : Model key R) where
  -- Every row that is returned passes the test.
  pub find_ordered-All :
      (P : K × R → Type 0) (test : K × R → Bool) (before : K × R → K × R → Bool) (n : Option ℕ)
      (t : m.Table)
      → ((r : K × R) → test r ≡ true → P r)
      → All P (m.find_ordered test before n t)
  find_ordered-All P test before n t h =
      rw (m.find_ordered-rows test before n t)
        (All-limit P n _ (All-sort_with P before _ (All-select P test (m.rows t) h)))

  pub find_many-All :
      (P : K × R → Type 0) (test : K × R → Bool) (column : K × R → ℕ) (n : Option ℕ) (t : m.Table)
      → ((r : K × R) → test r ≡ true → P r)
      → All P (m.find_many test column n t)
  find_many-All P test column n t h =
      rw (m.find_many-rows test column n t)
        (All-limit P n _ (All-sort_by P column _ (All-select P test (m.rows t) h)))

  -- No more rows are returned than asked for.
  pub find_ordered-length :
      (test : K × R → Bool) (before : K × R → K × R → Bool) (n : ℕ) (t : m.Table)
      → length (m.find_ordered test before (some n) t) ≤ n
  find_ordered-length test before n t =
      rw (m.find_ordered-rows test before (some n) t) (length-take-le n _)
