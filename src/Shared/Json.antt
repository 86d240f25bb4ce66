-- ===== src/Shared/Json.antt =====
-- Values that come from outside: message payloads and response bodies.
use layer_backend.Base.{String, Bool, Option, none, some, str_eq, if◌then◌else◌}
use layer_backend.Base.Int.{ℤ}

-- `fraction` is a number that is not an integer, as its text.
mutual
  pub data Json : Type 0 where
    null : Json
    boolean : Bool → Json
    number : ℤ → Json
    fraction : String → Json
    text : String → Json
    array : Items → Json
    object : Fields → Json

  pub data Items : Type 0 where
    nil : Items
    cons : Json → Items → Items

  pub data Fields : Type 0 where
    end : Fields
    field : String → Json → Fields → Fields

-- The value of a property; `none` is `undefined`.
unfoldable pub property : String → Fields → Option Json
property name Fields.end = none
property name (Fields.field key value rest) =
    if str_eq key name then some value else property name rest
