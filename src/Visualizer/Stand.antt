-- ===== src/Visualizer/Stand.antt =====
-- The stand that sends the messages of Business Central: visualizer/src/components/StandPanel.tsx,
-- without its markup.
use layer_backend.Base.{
  ℕ, String, Bool, true, Option, none, some, List, [], ◌∷◌, ◌<>◌, ◌||◌, select, length, str_eq,
  is_none, if◌then◌else◌,
}
use layer_backend.Base.Int.{ℤ}
use layer_backend.Visualizer.Types.{ShopRef, ProductCommand, CommandVariant}

pub data Kind : Type 0 where
  product stock : Kind

-- `SendRequest`. A quantity that is no integer, which only a product may have, is `none`.
pub record SendRequest : Type 0 where
  pub kind : Kind
  pub sku : String
  pub variant_code : String
  pub shop_code : String
  pub quantity : Option ℤ
  pub absolute : Bool

-- The fields of the form.
pub record Form : Type 0 where
  pub kind : Kind
  pub absolute : Bool
  pub sku : String
  pub variant_code : String
  pub shop_code : String
  pub quantity : String

abbrev pub demo_variant : String → String → String → CommandVariant
demo_variant code barcode size = record {
  variant_code = code;
  barcode_no = some barcode;
  color = some "КОРИЧНЕВИЙ";
  size = some size;
}

-- `DEMO`.
abbrev pub demo : ProductCommand
demo = record {
  sku = "200202";
  name = "Кросівки жіночі";
  unit_measure = some "ПАР";
  brand = some "NORBY";
  price = some 699;
  season = some (record {
    name = "ВЕСНА 2025";
    starting_date = some "2025-03-01";
    ending_date = some "2025-05-31";
  });
  product_hierarchy = some (record {
    division = some "ОДЯГ";
    category = some "Кросівки";
    retail_product_code = some "КРОСІВКИ ЖІНОЧІ";
  });
  custom_category_code = some "6402999100";
  custom_category_code_description = some "менш як 24 см";
  variants =
      demo_variant "000" "770662476000" "42"
      ∷ demo_variant "001" "770662476001" "44"
      ∷ demo_variant "002" "770662476002" "46"
      ∷ demo_variant "003" "770662476003" "48"
      ∷ [];
}

-- The fields as they are at first.
abbrev pub initial_form : Form
initial_form = record {
  kind = product;
  absolute = true;
  sku = "200202";
  variant_code = "000";
  shop_code = "";
  quantity = "10";
}

-- `a || b` of texts.
abbrev pub or_text : String → String → String
or_text a b = if str_eq a "" then b else a

-- `shops[0]?.code`, empty where there is none.
abbrev pub first_code : List ShopRef → String
first_code [] = ""
first_code (shop ∷ shops) = shop.code

-- `effectiveShop`: the chosen shop, or the first that sells online, or the first.
unfoldable pub effective_shop : List ShopRef → String → String
effective_shop shops chosen =
    or_text chosen
      (or_text (first_code (select (λ s. s.included_in_ecom) shops)) (first_code shops))

-- `submit`, given the integer that `Number` makes of a text, where it makes one: a message of
-- stock needs an integer and a shop.
unfoldable pub submit : (String → Option ℤ) → List ShopRef → Form → Option SendRequest
submit number shops form =
    let parsed = number form.quantity in
    let shop = effective_shop shops form.shop_code in
    let request : SendRequest = record {
      kind = form.kind;
      sku = form.sku;
      variant_code = form.variant_code;
      shop_code = shop;
      quantity = parsed;
      absolute = form.absolute;
    } in
    elim form.kind [
      | product ↦ some request
      | stock ↦ if is_none parsed || str_eq shop "" then none else some request
    ]

-- What the form says of its choices: what each kind of message does, and that a shop does not count.
unfoldable pub explanation : (ℕ → String) → Form → String
explanation print form = elim form.kind [
  | product ↦
      "BC описує товар і всі його розміри — сезон, бренд, ціну, штрихкоди. Кількості тут немає, тому залишок не змінюється. Надішле "
      <> print (length demo.variants)
      <> " варіанти."
  | stock ↦
      if form.absolute
      then "BC каже: «у цьому магазині зараз стільки». Попереднє значення замінюється."
      else "BC каже: «стало на стільки більше або менше». Значення коригується."
]

-- `shops.find`.
unfoldable pub find_shop : String → List ShopRef → Option ShopRef
find_shop code [] = none
find_shop code (shop ∷ shops) =
    let rest = find_shop code shops in if str_eq shop.code code then some shop else rest

unfoldable pub shop_hint : List ShopRef → String → Option String
shop_hint shops shop = elim (find_shop shop shops) [
  | none ↦ none
  | some s ↦
      if s.included_in_ecom
      then none
      else some "Цей магазин не віддає товар в онлайн — його залишок у розрахунок не піде."
]

-- The text of an option of the list of shops.
unfoldable pub shop_option : ShopRef → String
shop_option s =
    s.code
    <> " · "
    <> (elim s.name [ none ↦ "без назви" | some name ↦ name ])
    <> (if s.included_in_ecom then "" else " — не для сайту")
