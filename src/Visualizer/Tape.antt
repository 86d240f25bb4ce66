-- ===== src/Visualizer/Tape.antt =====
-- The calculation as a stock-take tape: visualizer/src/components/ReceiptTape.tsx, without its
-- markup.
use layer_backend.Base.{
  ℕ, String, Bool, true, false, Option, none, some, List, [], ◌∷◌, ◌++◌, ◌<>◌, not, map, or_else,
  select, length, str_eq, ltb, is_none, if◌then◌else◌,
}
use layer_backend.Base.Int.{ℤ}
use layer_backend.Visualizer.Types.{ShopLine, Calculation, Trace}
use layer_backend.Visualizer.Activity.{print_int}

-- What `ShopRow` shows: the code, the name, the quantity, and whether it is struck through.
pub record ShopRow : Type 0 where
  pub code : String
  pub name : String
  pub quantity : String
  pub struck : Bool

-- What `TapeLine` shows.
pub record TapeLine : Type 0 where
  pub label : String
  pub sign : Option String
  pub value : String
  pub note : Option String
  pub emphasis : Bool

-- What `WithheldStamp` shows: the title and the reason.
pub record Stamp : Type 0 where
  pub title : String
  pub reason : String

-- The part below the shops, where there is a calculation.
pub record Sums : Type 0 where
  pub lines : List TapeLine
  pub on_site : String
  pub stamp : Option Stamp
  pub meta : List (String × String)

pub record Tape : Type 0 where
  pub header : List String
  pub shops : List ShopRow
  pub notes : List String
  pub sums : Option Sums

-- `condition ? <p>{text}</p> : null` on a text that may be missing or empty.
abbrev pub shown : Option String → List String
shown none = []
shown (some s) = if str_eq s "" then [] else s ∷ []

module _ (print : ℕ → String) (format_time : ℕ → String) where
  unfoldable pub shop_row : ShopLine → ShopRow
  shop_row shop = record {
    code = shop.shop_code;
    name = or_else shop.shop_name "без назви";
    quantity = print_int print shop.quantity;
    struck = not shop.included_in_ecom;
  }

  -- `counted`, and then `excluded`.
  unfoldable pub shop_rows : List ShopLine → List ShopRow
  shop_rows shops =
      map shop_row (select (λ s. s.included_in_ecom) shops)
      ++ map shop_row (select (λ s. not s.included_in_ecom) shops)

  -- The notes below the shops.
  unfoldable pub shop_notes : List ShopLine → List String
  shop_notes shops =
      (if ltb 0 (length shops) then [] else "Business Central ще нічого не надсилав" ∷ [])
      ++ (if ltb 0 (length (select (λ (s : ShopLine). not s.included_in_ecom) shops))
          then "Перекреслені магазини не віддають товар в онлайн, тому їхній залишок у суму не входить."
            ∷ []
          else [])

  unfoldable pub withheld_stamp : Calculation → Stamp
  withheld_stamp c = record {
    title =
        if is_none c.published_quantity
        then "На сайт ще не відправляли"
        else "Нове число затримано";
    reason =
        "Порахували "
        <> print_int print c.quantity
        <> ", але на сайт не віддали"
        <> (elim c.published_quantity [
          | none ↦
              ". Резерв з ECOM підтвердити не вдалося, а безпечного попереднього значення ще немає."
          | some published ↦
              ": сайт поки тримає "
              <> print_int print published
              <> ". Нове число більше, а резерв з ECOM непідтверджений — підвищувати доступну кількість на непідтверджених даних небезпечно."
        ]);
  }

  abbrev pub plain_line : String → Option String → ℤ → TapeLine
  plain_line label sign value = record {
    label = label;
    sign = sign;
    value = print_int print value;
    note = none;
    emphasis = false;
  }

  unfoldable pub sums_of : Trace → Calculation → Sums
  sums_of trace c = record {
    lines =
        record (plain_line "Разом у продажу" none c.shops_total) { emphasis = true }
        ∷ plain_line "Страховий запас" (some "−") c.safety_buffer
        ∷ record (plain_line "В ордерах «Новий»" (some "−") c.reserved) {
          note = if c.reservations_stale then some "останнє відоме значення" else none;
        }
        ∷ [];
    on_site = elim c.published_quantity [ none ↦ "—" | some q ↦ print_int print q ];
    stamp = if c.withheld then some (withheld_stamp c) else none;
    meta =
        ("Розраховано", format_time c.calculated_at)
        ∷ ("Відправлено на сайт", elim c.published_at [ none ↦ "ще ні" | some at ↦ format_time at ])
        ∷ ("Одиниця", or_else trace.unit_measure "шт")
        ∷ [];
  }

  -- The header.
  unfoldable pub tape_header : Trace → Option Calculation → List String
  tape_header trace calculation =
      ("Калькулятор залишку" ∷ (trace.sku <> " · " <> trace.variant_code) ∷ trace.name ∷ [])
      ++ (shown trace.descriptor
          ++ (shown trace.season_name ++ (elim calculation [
            | none ↦ []
            | some c ↦ ("регіон " <> c.region_code <> " · " <> c.region_name) ∷ []
          ])))

  -- `ReceiptTape`.
  unfoldable pub receipt_tape : Trace → Option Calculation → Tape
  receipt_tape trace calculation = record {
    header = tape_header trace calculation;
    shops = shop_rows trace.shops;
    notes = shop_notes trace.shops;
    sums = elim calculation [ none ↦ none | some c ↦ some (sums_of trace c) ];
  }
