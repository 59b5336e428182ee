-- ===== src/Telemetry/Json.antt =====
-- What encoding/json makes of a JSON text for a destination of type `any`. A number is the 64 bits of
-- its float64.
use vantage_core.Prelude.{ℕ, Bool, Option, none, some, Str, ◌==◌, if◌then◌else◌}

mutual
  pub data Json : Type 0 where
    null : Json
    boolean : Bool → Json
    number : ℕ → Json
    string : Str → Json
    array : Items → Json
    object : Fields → Json

  pub data Items : Type 0 where
    no_items : Items
    item : Json → Items → Items

  pub data Fields : Type 0 where
    no_fields : Fields
    field : Str → Json → Fields → Fields

unfoldable pub get_field : Fields → Str → Option Json
get_field no_fields k = none
get_field (field j v fs) k = if j == k then some v else get_field fs k
