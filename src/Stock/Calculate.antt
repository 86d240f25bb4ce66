-- ===== src/Stock/Calculate.antt =====
-- The formula: src/modules/stock/services/stock.calculate.service.ts.
use layer_backend.Base.{◌≡◌, ◌⊎◌, arith}
use layer_backend.Base.Int.{pos, ◌-ℤ◌, ◌≤ℤ◌, max_zero, -ℤ_parts}
use layer_backend.Stock.Types.{StockCalculationInput, StockCalculationResult}

-- `calculate`.
unfoldable pub calculate : StockCalculationInput → StockCalculationResult
calculate input = record {
  shops_total = input.shops_total;
  safety_buffer = input.safety_buffer;
  reserved = input.reserved;
  quantity = max_zero (input.shops_total -ℤ input.safety_buffer -ℤ input.reserved);
}

-- The quantity is never negative. It is never below what the shops hold less the buffer and the
-- reservations, and it is that difference or zero.
pub calculate_quantity :
    (input : StockCalculationInput)
    → let q = (calculate input).quantity in
      let difference = input.shops_total -ℤ input.safety_buffer -ℤ input.reserved in
      (pos 0 ≤ℤ q) × (difference ≤ℤ q) × ((q ≡ difference) ⊎ (q ≡ pos 0))
unfolding calculate max_zero
calculate_quantity input = ground arith

-- More stock never lowers the quantity; a larger buffer or more reservations never raise it.
pub calculate_monotone :
    (a b : StockCalculationInput)
    → a.shops_total ≤ℤ b.shops_total
    → b.safety_buffer ≤ℤ a.safety_buffer
    → b.reserved ≤ℤ a.reserved
    → (calculate a).quantity ≤ℤ (calculate b).quantity
unfolding calculate max_zero
calculate_monotone a b total buffer reserved = ground (
  arith,
  -ℤ_parts a.shops_total a.safety_buffer,
  -ℤ_parts b.shops_total b.safety_buffer,
  -ℤ_parts (a.shops_total -ℤ a.safety_buffer) a.reserved,
  -ℤ_parts (b.shops_total -ℤ b.safety_buffer) b.reserved,
)
