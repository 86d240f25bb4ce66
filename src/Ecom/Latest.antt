-- ===== src/Ecom/Latest.antt =====
-- The number that was queued last for a pair, and the writes of the outbox that keep it.
use layer_backend.Base.{
  ℕ, String, Bool, Option, none, some, List, [], ◌∷◌, ◌++◌, ◌≡◌, refl, arith, if◌then◌else◌,
}
use layer_backend.Base.Int.{ℤ}
use layer_backend.Base.Rows
use layer_backend.Schema.{EcomStockOutbox}
use layer_backend.Platform.{pair_of_ids}
use layer_backend.Ecom.Repositories.{send_row, fail_row}

abbrev pub pair_of : EcomStockOutbox → ℕ × ℕ
pair_of row = (row.variant_id, row.region_id)

-- A newer number if there is one, else an older.
abbrev pub newer : Option ℤ → Option ℤ → Option ℤ
newer none old = old
newer (some q) old = some q

-- The quantity of the last row of a pair, in the order in which the rows were created.
abbrev pub latest : ℕ × ℕ → List (ℕ × EcomStockOutbox) → Option ℤ
latest k [] = none
latest k (r ∷ rows) =
    newer (latest k rows) (if pair_of_ids.same (pair_of r.1) k then some r.1.quantity else none)

pub latest-append :
    (k : ℕ × ℕ) (id : ℕ) (row : EcomStockOutbox) (rows : List (ℕ × EcomStockOutbox))
    → latest k (rows ++ (id, row) ∷ [])
      ≡ (if pair_of_ids.same (pair_of row) k then some row.quantity else latest k rows)
latest-append k id row [] = ground arith
latest-append k id row (r ∷ rows) = ground (arith, latest-append k id row rows)

module _ (test : ℕ → EcomStockOutbox → Bool) where
  pub latest-send :
      (k : ℕ × ℕ) (time : ℕ) (rows : List (ℕ × EcomStockOutbox))
      → latest k (Rows.update_many test (send_row time) rows) ≡ latest k rows
  unfolding Rows.update_many
  latest-send k time [] = refl
  latest-send k time (r ∷ rows) = ground (arith, latest-send k time rows)

  pub latest-fail :
      (k : ℕ × ℕ) (error : String) (rows : List (ℕ × EcomStockOutbox))
      → latest k (Rows.update_many test (fail_row error) rows) ≡ latest k rows
  unfolding Rows.update_many
  latest-fail k error [] = refl
  latest-fail k error (r ∷ rows) = ground (arith, latest-fail k error rows)
