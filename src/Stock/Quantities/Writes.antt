-- ===== src/Stock/Quantities/Writes.antt =====
-- One write of a quantity: shop-stock.repository.ts.
use layer_backend.Base.{
  ℕ, String, true, false, Option, none, some, ◌≡◌, refl, arith, or_else, ◌∙◌, ◌⊎◌, if◌then◌else◌,
  eq_iff,
}
use layer_backend.Base.Int.{ℤ, pos, ◌+ℤ◌, max_zero}
use layer_backend.Exec.{Result, ok, err}
use layer_backend.Stock.Types.{StockLine}
use layer_backend.Stock.Apply.{write_line}
use layer_backend.Schema.{ShopStock}
use layer_backend.Platform.{Platform, stock_key}
use layer_backend.Platform.Laws.{find_unique-upsert, find_unique-update_many}
use layer_backend.World.{World, Db, M, execute}
use layer_backend.Stock.Repositories.ShopStocks.{
  set_quantity, adjust_quantity, increment_quantity, clamp_quantity,
}

-- What a line asks of the quantity that is there.
abbrev pub wanted : StockLine → ℤ → ℤ
wanted line old =
    max_zero (elim line.quantity [ some n ↦ n | none ↦ old +ℤ or_else line.quantity_delta (pos 0) ])

module _ (p : Platform) where
  -- The row of a variant in a shop, and its quantity, zero where there is no row.
  abbrev pub stock_row : Db p → ℕ × String → Option ShopStock
  stock_row db k = p.shop_stock.find_unique k db.shop_stocks

  abbrev pub quantity_of : Option ShopStock → ℤ
  quantity_of none = pos 0
  quantity_of (some stock) = stock.quantity

  -- The row that the two statements of an adjustment leave under each key.
  pub adjusted :
      (v : ℕ) (s : String) (delta : ℤ) (time : ℕ) (db : Db p) (j : ℕ × String)
      → stock_row (clamp_quantity p v s (increment_quantity p v s delta time db)) j ≡ (
          if stock_key.same (v, s) j
          then some (record {
            quantity = max_zero (quantity_of (stock_row db j) +ℤ delta);
            reported_at = time;
          })
          else stock_row db j)
  unfolding increment_quantity clamp_quantity max_zero ◌+ℤ◌
  adjusted v s delta time db (jv, js) =
      rw (find_unique-update_many p.shop_stock, find_unique-upsert p.shop_stock)
        (ground (arith, eq_iff s js, eq_iff js s))

  -- How the write of a line ends, seen at any variant and shop.
  abbrev pub WritesLine :
      ℕ × String → StockLine → ℕ × String → World p → Result (Unit {0}) × World p → Type 0
  WritesLine k line j w (ok done, w') = quantity_of (stock_row w'.db j) ≡ (
      if stock_key.same k j
      then wanted line (quantity_of (stock_row w.db j))
      else quantity_of (stock_row w.db j))
  WritesLine k line j w (err e, w') =
      (stock_key.same k j ≡ true)
      ⊎ (quantity_of (stock_row w'.db j) ≡ quantity_of (stock_row w.db j))

  set_quantity-WritesLine :
      (v : ℕ) (s : String) (line : StockLine) (n : ℤ) (j : ℕ × String) (w : World p)
      → line.quantity ≡ some n
      → WritesLine (v, s) line j w (set_quantity p v s (max_zero n) w)
  unfolding set_quantity execute
  set_quantity-WritesLine v s line n j w h = ground (
    arith,
    find_unique-upsert p.shop_stock (v, s) j
        (record { quantity = max_zero n; reported_at = p.now w.tick })
        (λ stock. record { quantity = max_zero n; reported_at = p.now w.tick }) w.db.shop_stocks,
  )

  -- The first statement of an adjustment touches no other row.
  incremented :
      (v : ℕ) (s : String) (d : ℤ) (time : ℕ) (db : Db p) (j : ℕ × String)
      → stock_key.same (v, s) j ≡ false
      → stock_row (increment_quantity p v s d time db) j ≡ stock_row db j
  unfolding increment_quantity
  incremented v s d time db j miss =
      find_unique-upsert p.shop_stock (v, s) j
        (record { quantity = max_zero d; reported_at = time })
        (λ stock. record { quantity = stock.quantity +ℤ d; reported_at = time }) db.shop_stocks
      ∙ rw miss refl

  adjust_quantity-WritesLine :
      (v : ℕ) (s : String) (line : StockLine) (j : ℕ × String) (w : World p)
      → line.quantity ≡ none
      → WritesLine (v, s) line j w (adjust_quantity p v s (or_else line.quantity_delta (pos 0)) w)
  unfolding adjust_quantity execute
  adjust_quantity-WritesLine v s line j w h = ground (
    arith,
    adjusted v s (or_else line.quantity_delta (pos 0)) (p.now w.tick) w.db j,
    incremented v s (or_else line.quantity_delta (pos 0)) (p.now w.tick) w.db j,
  )

  -- Once a line is written, its variant holds in its shop the quantity of the line, or what it held
  -- plus the delta of the line (nothing if that is missing as well), and zero where that is negative.
  -- The quantity of every other variant or shop is what it was, also when a call fails.
  pub write_line-WritesLine :
      (v : ℕ) (s : String) (line : StockLine) (j : ℕ × String) (w : World p)
      → WritesLine (v, s) line j w (write_line p v s line w)
  unfolding write_line
  write_line-WritesLine v s line j w = go line.quantity refl
    where
      go :
          (q : Option ℤ)
          → line.quantity ≡ q
          → WritesLine
              (v, s)
              line
              j
              w
              ((elim q as (λ x. M p (Unit {0})) [
                | some n ↦ set_quantity p v s (max_zero n)
                | none ↦ adjust_quantity p v s (or_else line.quantity_delta (pos 0))
              ])
                w)
      go (some n) h = set_quantity-WritesLine v s line n j w h
      go none h = adjust_quantity-WritesLine v s line j w h
