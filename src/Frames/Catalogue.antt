-- ===== src/Frames/Catalogue.antt =====
-- What a catalogue message leaves alone: ingestProduct of bc-events.service.ts.
use layer_backend.Base.{◌≡◌, refl}
use layer_backend.Schema.{BcEventType}
use layer_backend.Shared.Json.{Json}
use layer_backend.Platform.{Platform}
use layer_backend.World.{World, Db}
use layer_backend.World.Keeps.{Secures, Keeps-Secures, Keeps-rethrow, keeps_rules}
use layer_backend.Frames.Messages.{apply_catalogue-Keeps}
use layer_backend.Frames.Ingest.{ignoring, ingest-Keeps}
use layer_backend.Frames.Runs.{run-Keeps}
use layer_backend.BcEvents.Dto.{BcProductEvent}
use layer_backend.BcEvents.Inbox.{KafkaMessageMeta}
use layer_backend.BcEvents.Ingest.{apply_product, ingest_product}

module _ (p : Platform) where
  -- Two databases hold the same stock of the same shops and regions.
  abbrev pub SameStock : Db p → Db p → Type 0
  SameStock a b = (b.shop_stocks ≡ a.shop_stocks) × (b.shops ≡ a.shops) × (b.regions ≡ a.regions)

  apply_product-Secures_stock :
      (db : Db p) (dto : BcProductEvent) → Secures p (SameStock db) (apply_product p dto)
  unfolding apply_product
  apply_product-Secures_stock db dto = Keeps-Secures p _ (
      search (
        keeps_rules,
        (apply_catalogue-Keeps p {P = SameStock db} (λ d t h. h) (λ d t h. h) (λ d t h. h)),
      ))

  -- A catalogue message changes the stock of no shop, no shop and no region, whatever it holds and
  -- whichever calls fail.
  pub ingest_product-SameStock :
      (payload : Json) (meta : KafkaMessageMeta) (w : World p)
      → SameStock w.db (ingest_product p payload meta w).1.db
  unfolding ingest_product
  ingest_product-SameStock payload meta w =
      (Keeps-rethrow p _ _ (
          ingest-Keeps p {P = SameStock w.db} (ignoring p (λ db t h. h))
            (run-Keeps p (λ db t h. h) (λ db t h. h) (λ db t h. h)) BcEventType.product
            p.product_dto payload meta (apply_product p) (apply_product-Secures_stock w.db))).at
        w (refl, refl, refl)
