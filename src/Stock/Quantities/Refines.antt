-- ===== src/Stock/Quantities/Refines.antt =====
-- apply of stock.apply-stock.service.ts does to the quantities what entering its lines does.
use layer_backend.Base.{
  fun_ext, ℕ, String, false, Option, none, some, List, [], ◌∷◌, ◌≡◌, refl, sym, subst, ap, ◌∙◌,
  if◌then◌else◌,
}
use layer_backend.Exec.{Result, ok, err, ◌>>◌}
use layer_backend.Platform.{Platform, stock_key}
use layer_backend.World.{World, Db, M}
use layer_backend.World.Ends.{bind-ends, rethrow-ends}
use layer_backend.Frames.Tables.{ensure_exists-Keeps}
use layer_backend.Stock.Types.{StockLine, StockTarget, StockUpdateCommand}
use layer_backend.Stock.Repositories.Catalogue.{ensure_exists}
use layer_backend.Stock.Apply.{apply_line, apply_lines, apply_stock, set_target}
use layer_backend.Stock.Quantities.Writes.{quantity_of, wanted}
use layer_backend.Stock.Quantities.Ids.{variant_id, Knows, apply_lines-Keeps-Knows}
use layer_backend.Stock.Quantities.Ledger.{
  Ledger, enter, enter_all, ledger_of, EntersLine, apply_line-EntersLine,
}

module _ (p : Platform) where
  -- How all the lines have ended: the quantities are those of the ledger in which the lines are
  -- entered, under the ids that the variants have at the end.
  abbrev pub Refines : String → List StockLine → Db p → Result (List StockTarget) × World p → Type 0
  Refines sku lines db (ok ts, w') =
      (j : ℕ × String)
      → ledger_of p w'.db j ≡ enter_all (variant_id p w'.db sku) lines (ledger_of p db) j
  Refines sku lines db (err e, w') = Unit

  module _ (sku : String) where
    one_entered :
        (line : StockLine) (v : ℕ) (ids : String → Option ℕ) (before after : Ledger)
        → ids line.variant_code ≡ some v
        → ((j : ℕ × String)
            → after j
              ≡ (if stock_key.same (v, line.shop_code) j then wanted line (before j) else before j))
        → (j : ℕ × String) → after j ≡ enter ids line before j
    unfolding enter
    one_entered line v ids before after known h j =
        h j
        ∙ ap
            (λ o.
              if (elim o [ none ↦ false | some v ↦ stock_key.same (v, line.shop_code) j ])
              then wanted line (before j)
              else before j)
            (sym known)

    -- The lines that follow a line that was entered.
    then_lines :
        (line : StockLine) (lines : List StockLine) (w u : World p) (t : StockTarget)
        (x : Result (List StockTarget) × World p)
        → EntersLine p sku line w (ok t, u)
        → ((v : ℕ) → Knows p sku line.variant_code v u.db → Knows p sku line.variant_code v x.1.db)
        → Refines sku lines u.db x
        → Refines sku (line ∷ lines) w.db x
    unfolding enter_all
    then_lines line lines w u t (err e, v) first keeps rest = tt
    then_lines line lines w u t (ok ts, v) (id, knows, first) keeps rest = λ j.
        rest j
        ∙ ap (λ (l : Ledger). enter_all (variant_id p v.db sku) lines l j)
            (fun_ext (
              one_entered line id (variant_id p v.db sku) (ledger_of p w.db) (ledger_of p u.db)
                (keeps id knows) first))

    apply_lines-Refines :
        (lines : List StockLine) (ts : List StockTarget) (w : World p)
        → Refines sku lines w.db (apply_lines p sku lines ts w)
    unfolding apply_lines enter_all
    apply_lines-Refines [] ts w = λ j. refl
    apply_lines-Refines (l ∷ ls) ts w =
        bind-ends p (Refines sku (l ∷ ls) w.db) (apply_line p sku l)
          (λ t. apply_lines p sku ls (set_target t ts)) w
          (λ t h.
            then_lines l ls w (apply_line p sku l w).1 t
              (apply_lines p sku ls (set_target t ts) (apply_line p sku l w).1)
              (entered t (apply_line p sku l w) h (apply_line-EntersLine p sku l w))
              (λ v k.
                (apply_lines-Keeps-Knows p sku ls (set_target t ts) sku l.variant_code v).at
                  (apply_line p sku l w).1 k)
              (apply_lines-Refines ls (set_target t ts) (apply_line p sku l w).1))
          (λ e h. tt)
      where
        entered :
            (t : StockTarget) (x : Result StockTarget × World p)
            → x.0 ≡ ok t
            → EntersLine p sku l w x
            → EntersLine p sku l w (ok t, x.1)
        entered t (r, u) h e = rw h at e

  -- When a stock message is applied, every shop holds of every variant what it does once the lines
  -- of the message are entered, in their order, in the ledger of what was held before: an absolute
  -- quantity replaces, a delta adds, a negative result is zero, and a variant or shop that no line
  -- names is left alone. This is so whether or not the variants and the shops were known, and also
  -- where several lines name one shop.
  pub apply_stock-Refines :
      (c : StockUpdateCommand) (w : World p) → Refines c.sku c.lines w.db (apply_stock p c w)
  unfolding apply_stock
  apply_stock-Refines c w =
      rethrow-ends p (Refines c.sku c.lines w.db) _ _ w
        (λ ts e. subst (λ r. Refines c.sku c.lines w.db (r, (m w).1)) e all) (λ x e. tt)
    where
      m : M p (List StockTarget)
      m = ensure_exists p c.sku >> apply_lines p c.sku c.lines []

      kept : (ensure_exists p c.sku w).1.db.shop_stocks ≡ w.db.shop_stocks
      kept =
          (ensure_exists-Keeps p {P = λ db. db.shop_stocks ≡ w.db.shop_stocks} (λ db t h. h)
              c.sku).at
            w refl

      carried :
          (x : Result (List StockTarget) × World p)
          → Refines c.sku c.lines (ensure_exists p c.sku w).1.db x
          → Refines c.sku c.lines w.db x
      carried (err e, v) h = tt
      carried (ok ts, v) h = λ j.
          h j
          ∙ ap
              (λ t.
                enter_all (variant_id p v.db c.sku) c.lines
                  (λ i. quantity_of p (p.shop_stock.find_unique i t)) j)
              kept

      all : Refines c.sku c.lines w.db (m w)
      all =
          bind-ends p (Refines c.sku c.lines w.db) (ensure_exists p c.sku)
            (λ u. apply_lines p c.sku c.lines []) w
            (λ u e.
              carried (apply_lines p c.sku c.lines [] (ensure_exists p c.sku w).1)
                (apply_lines-Refines c.sku c.lines [] (ensure_exists p c.sku w).1))
            (λ x e. tt)
