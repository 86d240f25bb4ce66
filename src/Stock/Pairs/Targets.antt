-- ===== src/Stock/Pairs/Targets.antt =====
-- The targets that apply of stock.apply-stock.service.ts returns are the pairs of its lines.
use layer_backend.Base.{ℕ, ◌≤◌, String, Bool, ◌||◌, List, [], ◌∷◌, length, ◌≡◌, refl, subst, arith}
use layer_backend.Exec.{Result, ok, err, pure, for_all, ◌>>=◌, ◌>>◌}
use layer_backend.Schema.{RecalculationReason}
use layer_backend.Platform.{Platform, pair_of_ids}
use layer_backend.World.{World, Db, M}
use layer_backend.World.Ends.{bind-ends, rethrow-ends}
use layer_backend.World.Keeps.{Keeps, keeps_rules}
use layer_backend.Frames.Tables.{enqueue_task-Keeps}
use layer_backend.Stock.Types.{StockLine, StockTarget, StockUpdateCommand, ResolvedShop}
use layer_backend.Stock.Repositories.Catalogue.{ensure_exists, ensure_for_stock}
use layer_backend.Stock.Repositories.Tasks.{identity, enqueue}
use layer_backend.Stock.Apply.{
  resolve, write_line, apply_line, apply_lines, apply_stock, set_target,
}
use layer_backend.Stock.Service as Service
use layer_backend.Stock.Quantities.Ids.{
  Knows, FindsVariant, ensure_for_stock-FindsVariant, write_line-Keeps-Knows, resolve-Keeps-Knows,
  apply_lines-Keeps-Knows,
}
use layer_backend.Stock.Targets.{
  targets_pair, targets_pair-set_target, AreDistinct, Bounded, apply_stock-Bounded,
}
use layer_backend.Stock.Pairs.{
  names_pair, affects, Belongs, FindsRegion, resolve-FindsRegion, write_line-Keeps-Belongs,
  apply_lines-Keeps-Belongs,
}

module _ (p : Platform) where
  -- A line is resolved to the variant and the region that it is about.
  abbrev Resolves : String → StockLine → Result StockTarget × World p → Type 0
  Resolves sku line (ok t, w') =
      Knows p sku line.variant_code t.variant_id w'.db × Belongs p line.shop_code t.region_id w'.db
  Resolves sku line (err e, w') = Unit

  module _ (sku : String) (line : StockLine) where
    abbrev made : ℕ → ResolvedShop → StockTarget
    made v shop = record {
      variant_id = v;
      sku = sku;
      variant_code = line.variant_code;
      region_id = shop.region_id;
      region_code = shop.region_code;
    }

    abbrev written : ℕ → ResolvedShop → M p StockTarget
    written v shop = write_line p v shop.code line >> pure (made v shop)

    abbrev found : ℕ → M p StockTarget
    found v = resolve p line.shop_code >>= written v

    written-Resolves :
        (v : ℕ) (shop : ResolvedShop) (u : World p)
        → Knows p sku line.variant_code v u.db
        → Belongs p line.shop_code shop.region_id u.db
        → Resolves sku line (written v shop u)
    written-Resolves v shop u knows belongs =
        bind-ends p (Resolves sku line) (write_line p v shop.code line) (λ done. pure (made v shop))
          u
          (λ done h. (
            (write_line-Keeps-Knows p v shop.code line sku line.variant_code v).at u knows,
            (write_line-Keeps-Belongs p v shop.code line line.shop_code shop.region_id).at u
                belongs,
          ))
          (λ e h. tt)

    found-Resolves :
        (v : ℕ) (u : World p) → Knows p sku line.variant_code v u.db → Resolves sku line (found v u)
    found-Resolves v u knows =
        bind-ends p (Resolves sku line) (resolve p line.shop_code) (written v) u
          (λ shop h.
            written-Resolves v shop (resolve p line.shop_code u).1
              ((resolve-Keeps-Knows p line.shop_code sku line.variant_code v).at u knows)
              (finds (resolve p line.shop_code u) shop h (resolve-FindsRegion p line.shop_code u)))
          (λ e h. tt)
      where
        finds :
            (x : Result ResolvedShop × World p) (shop : ResolvedShop)
            → x.0 ≡ ok shop
            → FindsRegion p line.shop_code x
            → Belongs p line.shop_code shop.region_id x.1.db
        finds (r, x) shop h f = rw h at f

    apply_line-Resolves : (w : World p) → Resolves sku line (apply_line p sku line w)
    unfolding apply_line
    apply_line-Resolves w =
        bind-ends p (Resolves sku line) (ensure_for_stock p sku line.variant_code) found w
          (λ v h. found-Resolves v (ensure_for_stock p sku line.variant_code w).1 (
            finds (ensure_for_stock p sku line.variant_code w) v h
              (ensure_for_stock-FindsVariant p sku line.variant_code w)))
          (λ e h. tt)
      where
        finds :
            (x : Result ℕ × World p) (v : ℕ)
            → x.0 ≡ ok v
            → FindsVariant p sku line.variant_code x
            → Knows p sku line.variant_code v x.1.db
        finds (r, x) v h f = rw h at f

  -- The targets are those of the lines, and those that were there before.
  abbrev Collects :
      String
      → List StockLine
      → List StockTarget
      → ℕ × ℕ
      → Result (List StockTarget) × World p
      → Type 0
  Collects sku lines seen k (ok ts, w') =
      targets_pair k ts ≡ (affects p w'.db sku lines k || targets_pair k seen)
  Collects sku lines seen k (err e, w') = Unit

  named :
      (sku : String) (line : StockLine) (t : StockTarget) (k : ℕ × ℕ) (db : Db p)
      → Knows p sku line.variant_code t.variant_id db
      → Belongs p line.shop_code t.region_id db
      → names_pair p db sku line k ≡ pair_of_ids.same (identity t) k
  named sku line t k db knows belongs = rw knows (rw belongs refl)

  module _ (sku : String) (k : ℕ × ℕ) where
    then_lines :
        (line : StockLine) (lines : List StockLine) (seen : List StockTarget) (t : StockTarget)
        (u : World p) (x : Result (List StockTarget) × World p)
        → Resolves sku line (ok t, u)
        → ((v : ℕ) → Knows p sku line.variant_code v u.db → Knows p sku line.variant_code v x.1.db)
        → ((r : ℕ) → Belongs p line.shop_code r u.db → Belongs p line.shop_code r x.1.db)
        → Collects sku lines (set_target t seen) k x
        → Collects sku (line ∷ lines) seen k x
    then_lines line lines seen t u (err e, v) first knows belongs rest = tt
    then_lines line lines seen t u (ok ts, v) (a, b) knows belongs rest = ground (
      arith,
      named sku line t k v.db (knows t.variant_id a) (belongs t.region_id b),
      targets_pair-set_target k t seen,
      rest,
    )

    apply_lines-Collects :
        (lines : List StockLine) (seen : List StockTarget) (w : World p)
        → Collects sku lines seen k (apply_lines p sku lines seen w)
    unfolding apply_lines
    apply_lines-Collects [] seen w = refl
    apply_lines-Collects (l ∷ ls) seen w =
        bind-ends p (Collects sku (l ∷ ls) seen k) (apply_line p sku l)
          (λ t. apply_lines p sku ls (set_target t seen)) w
          (λ t h.
            then_lines l ls seen t (apply_line p sku l w).1
              (apply_lines p sku ls (set_target t seen) (apply_line p sku l w).1)
              (resolved t (apply_line p sku l w) h (apply_line-Resolves sku l w))
              (λ v a.
                (apply_lines-Keeps-Knows p sku ls (set_target t seen) sku l.variant_code v).at
                  (apply_line p sku l w).1 a)
              (λ r a.
                (apply_lines-Keeps-Belongs p sku ls (set_target t seen) l.shop_code r).at
                  (apply_line p sku l w).1 a)
              (apply_lines-Collects ls (set_target t seen) (apply_line p sku l w).1))
          (λ e h. tt)
      where
        resolved :
            (t : StockTarget) (x : Result StockTarget × World p)
            → x.0 ≡ ok t
            → Resolves sku l x
            → Resolves sku l (ok t, x.1)
        resolved t (r, u) h e = rw h at e

  -- What a stock message resolves to: targets that are distinct, no more than its lines, and for a
  -- pair exactly if a line is about it.
  abbrev pub Targets : StockUpdateCommand → ℕ × ℕ → Result (List StockTarget) × World p → Type 0
  Targets c k (ok ts, w') =
      AreDistinct ts
      × (length ts ≤ length c.lines)
      × (targets_pair k ts ≡ affects p w'.db c.sku c.lines k)
  Targets c k (err e, w') = Unit

  apply_stock-Collects :
      (c : StockUpdateCommand) (k : ℕ × ℕ) (w : World p)
      → Collects c.sku c.lines [] k (apply_stock p c w)
  unfolding apply_stock
  apply_stock-Collects c k w =
      rethrow-ends p (Collects c.sku c.lines [] k) _ _ w
        (λ ts e. subst (λ r. Collects c.sku c.lines [] k (r, (m w).1)) e all) (λ x e. tt)
    where
      m : M p (List StockTarget)
      m = ensure_exists p c.sku >> apply_lines p c.sku c.lines []

      all : Collects c.sku c.lines [] k (m w)
      all =
          bind-ends p (Collects c.sku c.lines [] k) (ensure_exists p c.sku)
            (λ u. apply_lines p c.sku c.lines []) w
            (λ u e. apply_lines-Collects c.sku k c.lines [] (ensure_exists p c.sku w).1) (λ x e. tt)

  -- When a stock message is applied, a pair of a variant and a region has a target exactly if a line
  -- of the message is about it: the ids are those that the line's variant and its shop's region have
  -- in the database then. No pair has two targets, and there are no more of them than lines.
  pub apply_stock-Targets :
      (c : StockUpdateCommand) (k : ℕ × ℕ) (w : World p) → Targets c k (apply_stock p c w)
  apply_stock-Targets c k w =
      go (apply_stock p c w) (apply_stock-Bounded p c w) (apply_stock-Collects c k w)
    where
      go :
          (x : Result (List StockTarget) × World p)
          → Bounded p c.lines 0 x
          → Collects c.sku c.lines [] k x
          → Targets c k x
      go (ok ts, v) (d, n) h = (d, omega (arith, n), ground (arith, h))
      go (err e, v) b h = tt

  -- What stays known of the targets while they are queued.
  abbrev Agrees : StockUpdateCommand → ℕ × ℕ → Bool → Db p → Type 0
  Agrees c k b db = affects p db c.sku c.lines k ≡ b

  -- The targets that the service has queued are those of the lines.
  abbrev pub Queued : StockUpdateCommand → ℕ × ℕ → Result (List StockTarget) × World p → Type 0
  Queued c k (ok ts, w') = affects p w'.db c.sku c.lines k ≡ targets_pair k ts
  Queued c k (err e, w') = Unit

  module _ (c : StockUpdateCommand) (k : ℕ × ℕ) where
    queued :
        (ts : List StockTarget) (v : World p)
        → Collects c.sku c.lines [] k (ok ts, v)
        → Queued c k ((for_all (λ t. enqueue p t RecalculationReason.bc_stock) ts >> pure ts) v)
    queued ts v h =
        bind-ends p (Queued c k) (for_all (λ t. enqueue p t RecalculationReason.bc_stock) ts)
          (λ u. pure ts) v (λ u e. kept.at v (ground (arith, h))) (λ x e. tt)
      where
        kept :
            Keeps p
              (Agrees c k (targets_pair k ts))
              (for_all (λ t. enqueue p t RecalculationReason.bc_stock) ts)
        kept = search (keeps_rules, enqueue_task-Keeps) depth 8

    pub service_apply_stock-Queued : (w : World p) → Queued c k (Service.apply_stock p c w)
    unfolding Service.apply_stock
    service_apply_stock-Queued w =
        rethrow-ends p (Queued c k) _ _ w (λ ts e. subst (λ r. Queued c k (r, (m w).1)) e all)
          (λ x e. tt)
      where
        m : M p (List StockTarget)
        m = apply_stock p c >>= λ ts.
            for_all (λ t. enqueue p t RecalculationReason.bc_stock) ts >> pure ts

        resolved :
            (ts : List StockTarget) (x : Result (List StockTarget) × World p)
            → x.0 ≡ ok ts
            → Collects c.sku c.lines [] k x
            → Collects c.sku c.lines [] k (ok ts, x.1)
        resolved ts (r, u) h e = rw h at e

        all : Queued c k (m w)
        all =
            bind-ends p (Queued c k) (apply_stock p c)
              (λ ts. for_all (λ t. enqueue p t RecalculationReason.bc_stock) ts >> pure ts) w
              (λ ts e.
                queued ts (apply_stock p c w).1
                  (resolved ts (apply_stock p c w) e (apply_stock-Collects c k w)))
              (λ x e. tt)
