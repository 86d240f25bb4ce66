-- ===== src/Stock/Repositories/Shops.antt =====
-- region.repository.ts and shop.repository.ts.
use layer_backend.Base.{ℕ, String, false, Option, none, some, List, [], ◌∷◌, ◌==◌}
use layer_backend.Base.Int.{ℤ}
use layer_backend.Shared.Errors.{Exception}
use layer_backend.Exec.{pure, or_throw, ◌>>=◌}
use layer_backend.Schema.{Region, Shop}
use layer_backend.Platform.{Platform}
use layer_backend.World.{Db, M, query, returning, new_uuid}
use layer_backend.Stock.Types.{ResolvedShop}

-- Prisma's "no row matched" of `findUniqueOrThrow`.
abbrev pub not_found : Exception
not_found = Exception.prisma "P2025" "No record was found for a query."

abbrev pub first {ℓ} : {A : Type ℓ} → List A → Option A
first [] = none
first (x ∷ xs) = some x

module _ (p : Platform) where
  -- The region with an id, which is unique.
  unfoldable pub region_by_id : ℕ → Db p → Option (String × Region)
  region_by_id id db = first (p.region.find_many (λ r. r.1.id == id) (λ r. 0) (some 1) db.regions)

  -- `RegionRepository.ensureByCode`: the region's id and code.
  unfoldable pub ensure_by_code : String → String → ℤ → M p (ℕ × String)
  ensure_by_code bc_code name safety_buffer = do
    id ← new_uuid p
    found ←
        returning p
          (λ db. record db {
            regions =
                p.region.upsert bc_code
                  (record { id = id; name = name; safety_buffer = safety_buffer }) (λ r. r)
                  db.regions;
          })
          (λ db. p.region.find_unique bc_code db.regions)
    region ← or_throw not_found found
    pure (region.id, bc_code)

  -- `RegionRepository.findSafetyBuffer`.
  unfoldable pub find_safety_buffer : ℕ → M p ℤ
  find_safety_buffer region_id = do
    found ← query p (region_by_id region_id)
    region ← or_throw not_found found
    pure region.1.safety_buffer

  -- A shop with the code of its region. `Shop.regionId` is a foreign key, so there is one.
  abbrev pub resolved : String → Db p → Shop → ResolvedShop
  resolved code db shop = record {
    code = code;
    region_id = shop.region_id;
    region_code = elim (region_by_id shop.region_id db) [ none ↦ "" | some (bc_code, _) ↦ bc_code ];
  }

  abbrev pub resolve_code : String → Db p → Option ResolvedShop
  resolve_code code db = elim (p.shop.find_unique code db.shops) [
    | none ↦ none
    | some shop ↦ some (resolved code db shop)
  ]

  -- `ShopRepository.findByCode`.
  unfoldable pub find_by_code : String → M p (Option ResolvedShop)
  find_by_code code = query p (resolve_code code)

  -- `ShopRepository.ensureUnmapped`: a new shop does not feed e-com.
  unfoldable pub ensure_unmapped : String → ℕ → M p ResolvedShop
  ensure_unmapped code region_id = do
    found ←
        returning p
          (λ db. record db {
            shops =
                p.shop.upsert code
                  (record { name = none; region_id = region_id; included_in_ecom = false }) (λ s. s)
                  db.shops;
          })
          (resolve_code code)
    or_throw not_found found
