-- ===== src/Stock/Targets.antt =====
-- The pairs that a message or a request has calculated: apply of stock.apply-stock.service.ts and
-- runRecalculationForVariant of stock.service.ts. Each pair and each region occurs once.
use mathlib.Core.Path.{subst}
use layer_backend.Base.{
  ℕ, suc, ◌+◌, ◌≤◌, String, Bool, false, ◌||◌, ◌==◌, List, [], ◌∷◌, length, ◌≡◌, arith,
}
use layer_backend.Exec.{Result, ok, err, ◌>>◌}
use layer_backend.Platform.{Platform, pair_of_ids}
use layer_backend.World.{World, M}
use layer_backend.World.Ends.{bind-ends, rethrow-ends}
use layer_backend.Stock.Types.{StockTarget, StockLine, StockUpdateCommand}
use layer_backend.Stock.Repositories.Tasks.{identity}
use layer_backend.Stock.Repositories.Catalogue.{ensure_exists}
use layer_backend.Stock.Apply.{set_target, apply_line, apply_lines, apply_stock}
use layer_backend.Stock.Service.{set_region, distinct_regions}

-- Whether a pair has a target.
abbrev pub targets_pair : ℕ × ℕ → List StockTarget → Bool
targets_pair k [] = false
targets_pair k (t ∷ ts) = pair_of_ids.same (identity t) k || targets_pair k ts

-- No pair has two targets.
abbrev pub AreDistinct : List StockTarget → Type 0
AreDistinct [] = Unit
AreDistinct (t ∷ ts) = (targets_pair (identity t) ts ≡ false) × AreDistinct ts

pub targets_pair-set_target :
    (k : ℕ × ℕ) (t : StockTarget) (ts : List StockTarget)
    → targets_pair k (set_target t ts) ≡ (pair_of_ids.same (identity t) k || targets_pair k ts)
unfolding set_target
targets_pair-set_target k t [] = ground arith
targets_pair-set_target k t (x ∷ ts) = ground (arith, targets_pair-set_target k t ts)

set_target-AreDistinct :
    (t : StockTarget) (ts : List StockTarget) → AreDistinct ts → AreDistinct (set_target t ts)
unfolding set_target
set_target-AreDistinct t [] h = ground arith
set_target-AreDistinct t (x ∷ ts) h =
    ground (arith, set_target-AreDistinct t ts, targets_pair-set_target (identity x) t ts)

length-set_target :
    (t : StockTarget) (ts : List StockTarget) → length (set_target t ts) ≤ suc (length ts)
unfolding set_target
length-set_target t [] = ground arith
length-set_target t (x ∷ ts) = ground (arith, length-set_target t ts)

-- Whether a region is in a list, and no region is in it twice.
abbrev pub lists_region : ℕ → List (ℕ × String) → Bool
lists_region id [] = false
lists_region id (r ∷ rs) = r.0 == id || lists_region id rs

abbrev pub AreDistinctRegions : List (ℕ × String) → Type 0
AreDistinctRegions [] = Unit
AreDistinctRegions (r ∷ rs) = (lists_region r.0 rs ≡ false) × AreDistinctRegions rs

lists_region-set_region :
    (id : ℕ) (r : ℕ × String) (rs : List (ℕ × String))
    → lists_region id (set_region r rs) ≡ (r.0 == id || lists_region id rs)
unfolding set_region
lists_region-set_region id r [] = ground arith
lists_region-set_region id r (x ∷ rs) = ground (arith, lists_region-set_region id r rs)

set_region-AreDistinctRegions :
    (r : ℕ × String) (rs : List (ℕ × String))
    → AreDistinctRegions rs
    → AreDistinctRegions (set_region r rs)
unfolding set_region
set_region-AreDistinctRegions r [] h = ground arith
set_region-AreDistinctRegions r (x ∷ rs) h =
    ground (arith, set_region-AreDistinctRegions r rs, lists_region-set_region x.0 r rs)

distinct_regions-both :
    (id : ℕ) (seen rs : List (ℕ × String))
    → AreDistinctRegions seen
    → AreDistinctRegions (distinct_regions seen rs)
      × (lists_region id (distinct_regions seen rs) ≡ (lists_region id seen || lists_region id rs))
unfolding distinct_regions
distinct_regions-both id seen [] h = ground arith
distinct_regions-both id seen (r ∷ rs) h = ground (
  arith,
  distinct_regions-both id (set_region r seen) rs (set_region-AreDistinctRegions r seen h),
  lists_region-set_region id r seen,
)

-- The regions that a variant is calculated for are the regions of the shops that hold it, each once.
pub distinct_regions-AreDistinctRegions :
    (id : ℕ) (rs : List (ℕ × String))
    → AreDistinctRegions (distinct_regions [] rs)
      × (lists_region id (distinct_regions [] rs) ≡ lists_region id rs)
distinct_regions-AreDistinctRegions id rs = distinct_regions-both id [] rs tt

module _ (p : Platform) where
  -- What a stock message resolves to: targets that are distinct, no more than its lines.
  abbrev pub Bounded : List StockLine → ℕ → Result (List StockTarget) × World p → Type 0
  Bounded lines seen (ok ts, w') = AreDistinct ts × (length ts ≤ seen + length lines)
  Bounded lines seen (err e, w') = Unit

  apply_lines-Bounded :
      (sku : String) (lines : List StockLine) (seen : List StockTarget) (w : World p)
      → AreDistinct seen
      → Bounded lines (length seen) (apply_lines p sku lines seen w)
  unfolding apply_lines
  apply_lines-Bounded sku [] seen w h = ground arith
  apply_lines-Bounded sku (l ∷ ls) seen w h =
      bind-ends p (Bounded (l ∷ ls) (length seen)) (apply_line p sku l)
        (λ t. apply_lines p sku ls (set_target t seen)) w
        (λ t e. widen t (apply_lines p sku ls (set_target t seen) (apply_line p sku l w).1) (
          apply_lines-Bounded sku ls (set_target t seen) (apply_line p sku l w).1
            (set_target-AreDistinct t seen h)))
        (λ x e. tt)
    where
      widen :
          (t : StockTarget) (x : Result (List StockTarget) × World p)
          → Bounded ls (length (set_target t seen)) x
          → Bounded (l ∷ ls) (length seen) x
      widen t (ok ts, u) (d, n) = (d, omega (arith, n, length-set_target t seen))
      widen t (err e, u) h = tt

  -- When a stock message is applied, the targets that are to be calculated name each pair of a
  -- variant and a region once, and there are no more of them than the message has lines.
  pub apply_stock-Bounded :
      (c : StockUpdateCommand) (w : World p) → Bounded c.lines 0 (apply_stock p c w)
  unfolding apply_stock
  apply_stock-Bounded c w =
      rethrow-ends p (Bounded c.lines 0) _ _ w (λ ts e. inner ts e) (λ x e. tt)
    where
      m : M p (List StockTarget)
      m = ensure_exists p c.sku >> apply_lines p c.sku c.lines []

      all : Bounded c.lines 0 (m w)
      all =
          bind-ends p (Bounded c.lines 0) (ensure_exists p c.sku)
            (λ u. apply_lines p c.sku c.lines []) w
            (λ u e. apply_lines-Bounded c.sku c.lines [] (ensure_exists p c.sku w).1 tt) (λ x e. tt)

      inner : (ts : List StockTarget) → (m w).0 ≡ ok ts → Bounded c.lines 0 (ok ts, (m w).1)
      inner ts e = subst (λ r. Bounded c.lines 0 (r, (m w).1)) e all
