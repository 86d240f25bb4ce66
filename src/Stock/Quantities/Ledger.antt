-- ===== src/Stock/Quantities/Ledger.antt =====
-- A stock message as a ledger, in which its lines are entered one after the other, and one line of
-- stock.apply-stock.service.ts.
use layer_backend.Base.{
  ℕ, String, Bool, false, Option, none, some, List, [], ◌∷◌, ◌≡◌, refl, subst, ap, ◌∙◌,
  if◌then◌else◌,
}
use layer_backend.Base.Int.{ℤ}
use layer_backend.Exec.{Result, ok, err, pure, ◌>>=◌, ◌>>◌}
use layer_backend.Platform.{Platform, stock_key}
use layer_backend.World.{World, Db, M}
use layer_backend.World.Ends.{bind-ends}
use layer_backend.Frames.Tables.{ensure_for_stock-Keeps}
use layer_backend.Frames.Messages.{resolve-Keeps}
use layer_backend.Stock.Types.{StockLine, StockTarget, ResolvedShop}
use layer_backend.Stock.Repositories.Catalogue.{ensure_for_stock}
use layer_backend.Stock.Apply.{resolve, write_line, apply_line}
use layer_backend.Stock.Quantities.Writes.{
  stock_row, quantity_of, wanted, WritesLine, write_line-WritesLine,
}
use layer_backend.Stock.Quantities.Ids.{
  Knows, FindsVariant, ensure_for_stock-FindsVariant, FindsShop, resolve-FindsShop,
  write_line-Keeps-Knows, resolve-Keeps-Knows,
}

-- A ledger gives a quantity to each variant and shop.
abbrev pub Ledger : Type 0
Ledger = ℕ × String → ℤ

-- Whether a line is about a variant and a shop, given the ids of the variants.
abbrev pub concerns : (String → Option ℕ) → StockLine → ℕ × String → Bool
concerns ids line j = elim (ids line.variant_code) [
  | none ↦ false
  | some v ↦ stock_key.same (v, line.shop_code) j
]

-- One line is entered: it replaces the quantity, or adds to it, and a negative result becomes zero.
unfoldable pub enter : (String → Option ℕ) → StockLine → Ledger → Ledger
enter ids line ledger j = if concerns ids line j then wanted line (ledger j) else ledger j

-- All lines are entered, in their order.
unfoldable pub enter_all : (String → Option ℕ) → List StockLine → Ledger → Ledger
enter_all ids [] ledger = ledger
enter_all ids (line ∷ lines) ledger = enter_all ids lines (enter ids line ledger)

module _ (p : Platform) where
  -- The quantities of the database.
  abbrev pub ledger_of : Db p → Ledger
  ledger_of db j = quantity_of p (stock_row p db j)

  -- How one line has ended.
  abbrev pub EntersLine : String → StockLine → World p → Result StockTarget × World p → Type 0
  EntersLine sku line w (ok t, w') =
      (v : ℕ) × Knows p sku line.variant_code v w'.db
      × ((j : ℕ × String)
          → ledger_of w'.db j ≡ (
              if stock_key.same (v, line.shop_code) j
              then wanted line (ledger_of w.db j)
              else ledger_of w.db j))
  EntersLine sku line w (err e, w') = Unit

  module _ (sku : String) (line : StockLine) (w : World p) where
    abbrev made : ℕ → ResolvedShop → StockTarget
    made v shop = record {
      variant_id = v;
      sku = sku;
      variant_code = line.variant_code;
      region_id = shop.region_id;
      region_code = shop.region_code;
    }

    abbrev written : ℕ → ResolvedShop → M p StockTarget
    written v shop = write_line p v shop.code line >> pure (made v shop)

    abbrev found : ℕ → M p StockTarget
    found v = resolve p line.shop_code >>= written v

    abbrev Same : Db p → Type 0
    Same db = db.shop_stocks ≡ w.db.shop_stocks

    entered :
        (v : ℕ) (shop : ResolvedShop) (u : World p)
        → Same u.db
        → (x : Result (Unit {0}) × World p) (done : Unit {0}) → x.0 ≡ ok done
        → ((j : ℕ × String) → WritesLine p (v, shop.code) line j u x)
        → shop.code ≡ line.shop_code
        → Knows p sku line.variant_code v x.1.db
        → EntersLine sku line w (ok (made v shop), x.1)
    entered v shop u same (r, x) done is_ok writes code knows = (v, knows, λ j. at_key j)
      where
        at_key :
            (j : ℕ × String)
            → ledger_of x.db j ≡ (
                if stock_key.same (v, line.shop_code) j
                then wanted line (ledger_of w.db j)
                else ledger_of w.db j)
        at_key j =
            let written : WritesLine p (v, shop.code) line j u (ok done, x) =
              rw is_ok at (writes j) in
            subst
              (λ s. ledger_of x.db j ≡ (
                if stock_key.same (v, s) j
                then wanted line (ledger_of w.db j)
                else ledger_of w.db j))
              code
              (written
                ∙ ap
                    (λ t.
                      if stock_key.same (v, shop.code) j
                      then wanted line (quantity_of p (p.shop_stock.find_unique j t))
                      else quantity_of p (p.shop_stock.find_unique j t))
                    same)

    written-EntersLine :
        (v : ℕ) (shop : ResolvedShop) (u : World p)
        → Same u.db
        → shop.code ≡ line.shop_code
        → Knows p sku line.variant_code v u.db
        → EntersLine sku line w (written v shop u)
    written-EntersLine v shop u same code knows =
        bind-ends p (EntersLine sku line w) (write_line p v shop.code line)
          (λ done. pure (made v shop)) u
          (λ done h.
            entered v shop u same (write_line p v shop.code line u) done h
              (λ j. write_line-WritesLine p v shop.code line j u) code
              ((write_line-Keeps-Knows p v shop.code line sku line.variant_code v).at u knows))
          (λ e h. tt)

    found-EntersLine :
        (v : ℕ) (u : World p)
        → Same u.db
        → Knows p sku line.variant_code v u.db
        → EntersLine sku line w (found v u)
    found-EntersLine v u same knows =
        bind-ends p (EntersLine sku line w) (resolve p line.shop_code) (written v) u
          (λ shop h.
            written-EntersLine v shop (resolve p line.shop_code u).1
              ((resolve-Keeps p {P = Same} (λ db t k. k) (λ db t k. k) line.shop_code).at u same)
              (finds (resolve p line.shop_code u) shop h (resolve-FindsShop p line.shop_code u))
              ((resolve-Keeps-Knows p line.shop_code sku line.variant_code v).at u knows))
          (λ e h. tt)
      where
        finds :
            (x : Result ResolvedShop × World p) (shop : ResolvedShop)
            → x.0 ≡ ok shop
            → FindsShop p line.shop_code x
            → shop.code ≡ line.shop_code
        finds (r, x) shop h f = rw h at f

    pub apply_line-EntersLine : EntersLine sku line w (apply_line p sku line w)
    unfolding apply_line
    apply_line-EntersLine =
        bind-ends p (EntersLine sku line w) (ensure_for_stock p sku line.variant_code) found w
          (λ v h.
            found-EntersLine v (ensure_for_stock p sku line.variant_code w).1
              ((ensure_for_stock-Keeps p {P = Same} (λ db t k. k) sku line.variant_code).at w refl)
              (finds (ensure_for_stock p sku line.variant_code w) v h
                (ensure_for_stock-FindsVariant p sku line.variant_code w)))
          (λ e h. tt)
      where
        finds :
            (x : Result ℕ × World p) (v : ℕ)
            → x.0 ≡ ok v
            → FindsVariant p sku line.variant_code x
            → Knows p sku line.variant_code v x.1.db
        finds (r, x) v h f = rw h at f
