-- ===== src/Platform.antt =====
-- What the service runs on and does not implement: the Prisma client of each table, class-validator,
-- `fetch`, the Kafka producer, the clock, uuids, and which calls of the database fail. Every module
-- takes it as the parameter `p`; the laws are the documented behaviour that the code relies on.
pub mod Laws
pub mod Queries
pub mod Sums
pub mod Simple
use layer_backend.Base.{
  ℕ, String, Bool, true, Option, none, some, List, [], ◌∷◌, ◌++◌, ◌≡◌, if◌then◌else◌, leb, take,
  select, length,
}
use layer_backend.Base.Int.{ℤ, pos, leb_ℤ}
use layer_backend.Base.Rows
use layer_backend.Base.Rows.{Key, nat_key, text_key, pair_key}
use layer_backend.Shared.Errors.{Exception}
use layer_backend.Shared.Json.{Json}
use layer_backend.Exec.{Result}
use layer_backend.Schema.{
  Region, Shop, Season, Product, ProductVariant, ShopStock, EcomStock, StockRecalculationTask,
  BcEvent, EcomStockOutbox,
}
use layer_backend.BcEvents.Dto.{BcProductEvent, BcStockEvent}

-- `orderBy: { column: 'asc' }`: insertion sort, which leaves equal rows in their order.
module _ {A : Type 0} (column : A → ℕ) where
  abbrev pub insert_by : A → List A → List A
  insert_by x [] = x ∷ []
  insert_by x (y ∷ ys) = if leb (column x) (column y) then x ∷ y ∷ ys else y ∷ insert_by x ys

  abbrev pub sort_by : List A → List A
  sort_by [] = []
  sort_by (x ∷ xs) = insert_by x (sort_by xs)

-- `orderBy` by another order, such as a descending one or one of texts.
module _ {A : Type 0} (before : A → A → Bool) where
  abbrev pub insert_with : A → List A → List A
  insert_with x [] = x ∷ []
  insert_with x (y ∷ ys) = if before x y then x ∷ y ∷ ys else y ∷ insert_with x ys

  abbrev pub sort_with : List A → List A
  sort_with [] = []
  sort_with (x ∷ xs) = insert_with x (sort_with xs)

-- `take: n`, where it is given.
abbrev pub limit {ℓ} : {A : Type ℓ} → Option ℕ → List A → List A
limit none xs = xs
limit (some n) xs = take n xs

-- The Prisma client of one table, whose rows stand under a unique key. `rows` lists them in the
-- order in which they were created.
pub record Model {K : Type 0} (key : Key K) (R : Type 0) : Type 1 where
  pub Table : Type 0
  pub rows : Table → List (K × R)
  pub find_unique : K → Table → Option R
  pub find_many : (K × R → Bool) → (K × R → ℕ) → Option ℕ → Table → List (K × R)
  pub find_ordered : (K × R → Bool) → (K × R → K × R → Bool) → Option ℕ → Table → List (K × R)
  pub count : (K × R → Bool) → Table → ℕ
  pub sum : (K → R → ℤ) → Table → ℤ
  pub create : K → R → Table → Table
  -- `createMany` of one row with `skipDuplicates`: how many rows were created, and the table.
  pub create_new : K → R → Table → ℕ × Table
  pub upsert : K → R → (R → R) → Table → Table
  pub update_many : (K → R → Bool) → (R → R) → Table → Table
  pub find_unique-rows : (k : K) (t : Table) → find_unique k t ≡ Rows.lookup key.same k (rows t)
  pub find_many-rows :
      (test : K × R → Bool) (column : K × R → ℕ) (n : Option ℕ) (t : Table)
      → find_many test column n t ≡ limit n (sort_by column (select test (rows t)))
  pub find_ordered-rows :
      (test : K × R → Bool) (before : K × R → K × R → Bool) (n : Option ℕ) (t : Table)
      → find_ordered test before n t ≡ limit n (sort_with before (select test (rows t)))
  pub count-rows : (test : K × R → Bool) (t : Table) → count test t ≡ length (select test (rows t))
  pub sum-rows : (f : K → R → ℤ) (t : Table) → sum f t ≡ Rows.total f (rows t)
  pub rows-create : (k : K) (r : R) (t : Table) → rows (create k r t) ≡ rows t ++ (k, r) ∷ []
  pub create_new-create :
      (k : K) (r : R) (t : Table)
      → create_new k r t ≡ elim (find_unique k t) [ none ↦ (1, create k r t) | some old ↦ (0, t) ]
  pub rows-upsert :
      (k : K) (new : R) (change : R → R) (t : Table)
      → rows (upsert k new change t) ≡ Rows.upsert key.same k new change (rows t)
  pub rows-update_many :
      (test : K → R → Bool) (change : R → R) (t : Table)
      → rows (update_many test change t) ≡ Rows.update_many test change (rows t)

-- What `fetch` gives: an error, or a status, its text, and the body if it is JSON.
pub data Fetched : Type 0 where
  rejected : (reason : String) → Fetched
  replied : (success : Bool) → (status : String) → (body : Option Json) → Fetched

-- What `plainToInstance` and `validateSync` make of a payload: an object of the class, or the
-- messages of the broken constraints.
pub data Validated (T : Type 0) : Type 0 where
  valid : T → Validated T
  invalid : (details : String) → Validated T

-- A message for Kafka: its key, and the fields of its value.
pub record OutgoingMessage : Type 0 where
  pub key : String
  pub sku : String
  pub variant_code : String
  pub region_code : String
  pub quantity : ℤ
  pub calculated_at : ℕ

abbrev pub pair_of_ids : Key (ℕ × ℕ)
pair_of_ids = pair_key nat_key nat_key

abbrev pub stock_key : Key (ℕ × String)
stock_key = pair_key nat_key text_key

abbrev pub variant_key : Key (String × String)
variant_key = pair_key text_key text_key

abbrev pub event_key : Key (String × (ℕ × ℕ))
event_key = pair_key text_key pair_of_ids

pub record Platform : Type 1 where
  pub region : Model text_key Region
  pub shop : Model text_key Shop
  pub season : Model text_key Season
  pub product : Model text_key Product
  pub product_variant : Model variant_key ProductVariant
  pub shop_stock : Model stock_key ShopStock
  pub ecom_stock : Model pair_of_ids EcomStock
  pub task : Model pair_of_ids StockRecalculationTask
  pub bc_event : Model event_key BcEvent
  pub outbox : Model nat_key EcomStockOutbox
  -- The failure of the call that is made as the `n`-th one, if it fails.
  pub fault : ℕ → Option Exception
  -- `${n}` in a template literal.
  pub print : ℕ → String
  pub now : ℕ → ℕ
  pub uuid : ℕ → ℕ
  -- The order of texts in the database, and its test for a prefix (`startsWith`).
  pub text_before : String → String → Bool
  pub starts_with : (text beginning : String) → Bool
  -- `Math.round(process.uptime())`.
  pub uptime : ℕ → ℕ
  -- `new Date(text)`.
  pub date : String → ℕ
  -- `new Prisma.Decimal(value)` as a column `Decimal(14, 2)` keeps it, where `none` is `null`.
  pub decimal : Option String → Result String
  pub fetch : ℕ → (sku variant_code region_code : String) → Fetched
  pub send : ℕ → (topic : String) → List OutgoingMessage → Option Exception
  -- `process.env`.
  pub env : String → Option String
  pub product_dto : Json → Validated BcProductEvent
  pub stock_dto : Json → Validated BcStockEvent
  -- The constraints of class-validator; `none` is `undefined`.
  pub is_int : Option Json → Bool
  pub is_string : Option Json → Bool
  pub min : ℤ → Option Json → Bool
  pub is_int-number : (v : Option Json) → is_int v ≡ true → (n : ℤ) × (v ≡ some (Json.number n))
  pub min-number : (b n : ℤ) → min b (some (Json.number n)) ≡ leb_ℤ b n
