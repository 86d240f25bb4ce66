-- ===== src/Base/Rows.antt =====
-- The rows of a table, each under its key: reading, inserting or changing one, changing many, and
-- summing a number over them.
use mathlib.Core.Option
use mathlib.Core.List.{List, [], ◌∷◌, ◌++◌}
use Prim.Native.Nat.{ℕ}
use Prim.Native.String.{String}
use mathlib.Core.Path.{◌≡◌, refl}
use mathlib.Core.Logic.{◌↔◌}
use mathlib.Core.Bool.{Bool, true, ◌&&◌}
use mathlib.Core.Option.{Option, none, some}
use native.Mathlib.Omega.{arith}
use text.Mathlib.TextEquality.{eq_iff}
use layer_backend.Base.Tests.{◌==◌, ==_iff, str_eq, if◌then◌else◌}
use layer_backend.Base.Int.{ℤ, pos, ◌+ℤ◌, int_laws}

-- Equality of keys, with its meaning.
pub record Key (K : Type 0) : Type 0 where
  pub same : K → K → Bool
  pub same_iff : (a b : K) → (same a b ≡ true) ↔ (a ≡ b)

abbrev pub same_pair : {A B : Type 0} → Key A → Key B → A × B → A × B → Bool
same_pair k l (a, b) (c, d) = k.same a c && l.same b d

pub same_pair_iff :
    {A B : Type 0} (k : Key A) (l : Key B) (x y : A × B) → (same_pair k l x y ≡ true) ↔ (x ≡ y)
same_pair_iff k l (a, b) (c, d) = (
  λ h. ground (arith, k.same_iff a c, l.same_iff b d),
  λ h. ground (arith, k.same_iff a c, l.same_iff b d),
)

abbrev pub nat_key : Key ℕ
nat_key = record { same = ◌==◌; same_iff = ==_iff }

abbrev pub text_key : Key String
text_key = record { same = str_eq; same_iff = eq_iff }

abbrev pub pair_key : {A B : Type 0} → Key A → Key B → Key (A × B)
pair_key k l = record { same = same_pair k l; same_iff = same_pair_iff k l }

abbrev pub upserted : {R : Type 0} → R → (R → R) → Option R → R
upserted new change none = new
upserted new change (some r) = change r

module _ {K R : Type 0} where
  -- The row under a key.
  unfoldable pub lookup : (K → K → Bool) → K → List (K × R) → Option R
  lookup same k [] = none
  lookup same k ((j, r) ∷ t) = if same j k then some r else lookup same k t

  -- The row under a key is changed where there is one, else a new row is added at the end.
  unfoldable pub upsert : (K → K → Bool) → K → R → (R → R) → List (K × R) → List (K × R)
  upsert same k new change [] = (k, new) ∷ []
  upsert same k new change ((j, r) ∷ t) =
      if same j k then (j, change r) ∷ t else (j, r) ∷ upsert same k new change t

  -- Every row that passes the test is changed.
  unfoldable pub update_many : (K → R → Bool) → (R → R) → List (K × R) → List (K × R)
  update_many test change [] = []
  update_many test change ((j, r) ∷ t) =
      (j, if test j r then change r else r) ∷ update_many test change t

  -- The sum of a number that each row has.
  unfoldable pub total : (K → R → ℤ) → List (K × R) → ℤ
  total f [] = pos 0
  total f ((j, r) ∷ t) = f j r +ℤ total f t

  -- What a row contributes to a sum, nothing where there is none.
  abbrev pub share : (K → R → ℤ) → K → Option R → ℤ
  share f k none = pos 0
  share f k (some r) = f k r

  abbrev pub updated : (K → R → Bool) → (R → R) → K → R → R
  updated test change k r = if test k r then change r else r

module _ {K R : Type 0} (key : Key K) where
  open key use {same, same_iff}

  pub lookup-upsert :
      (k j : K) (new : R) (change : R → R) (t : List (K × R))
      → lookup same j (upsert same k new change t)
        ≡ (if same k j then some (upserted new change (lookup same j t)) else lookup same j t)
  unfolding lookup upsert
  lookup-upsert k j new change [] = ground arith
  lookup-upsert k j new change ((i, r) ∷ t) =
      ground (arith, lookup-upsert k j new change t, same_iff k j, same_iff i k, same_iff i j)

  pub lookup-update_many :
      (j : K) (test : K → R → Bool) (change : R → R) (t : List (K × R))
      → lookup same j (update_many test change t)
        ≡ Option.map (updated test change j) (lookup same j t)
  unfolding lookup update_many
  lookup-update_many j test change [] = refl
  lookup-update_many j test change ((i, r) ∷ t) =
      ground (arith, lookup-update_many j test change t, same_iff i j)

  -- One upsert moves a sum by the difference of the one row.
  pub total-upsert :
      (f : K → R → ℤ) (k : K) (new : R) (change : R → R) (t : List (K × R))
      → total f (upsert same k new change t) +ℤ share f k (lookup same k t)
        ≡ total f t +ℤ f k (upserted new change (lookup same k t))
  unfolding lookup upsert total
  total-upsert f k new change [] = omega int_laws
  total-upsert f k new change ((i, r) ∷ t) =
      grind (int_laws, total-upsert f k new change t, same_iff i k)

  -- A row that is added under a key that no row has is the one found there.
  pub lookup-append_new :
      (k : K) (r : R) (t : List (K × R))
      → lookup same k t ≡ none
      → lookup same k (t ++ (k, r) ∷ []) ≡ some r
  unfolding lookup
  lookup-append_new k r [] h = ground (arith, same_iff k k)
  lookup-append_new k r ((i, r') ∷ t) h = ground (arith, lookup-append_new k r t)

  pub lookup-append_old :
      (j k : K) (r old : R) (t : List (K × R))
      → lookup same j t ≡ some old
      → lookup same j (t ++ (k, r) ∷ []) ≡ some old
  unfolding lookup
  lookup-append_old j k r old [] h = cc
  lookup-append_old j k r old ((i, r') ∷ t) h = ground (arith, lookup-append_old j k r old t)

  pub lookup-append_missing :
      (j k : K) (r : R) (t : List (K × R))
      → lookup same j t ≡ none
      → lookup same j (t ++ (k, r) ∷ []) ≡ (if same k j then some r else none)
  unfolding lookup
  lookup-append_missing j k r [] h = refl
  lookup-append_missing j k r ((i, r') ∷ t) h = ground (arith, lookup-append_missing j k r t)
