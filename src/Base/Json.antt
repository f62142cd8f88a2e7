-- ===== src/Base/Json.antt =====
-- Values that arrive as JSON: numbers are natural and finite.
use Prim.Native.Nat.{ℕ}
use Prim.Native.String.{String}
use mathlib.Core.Bool.{Bool}
use mathlib.Core.Option.{Option, none, some}
use text.Mathlib.Text.{◌==◌ as str_eq}
use roboppi.Base.Tests.{if◌then◌else◌}

mutual
  pub data Json : Type 0 where
    null : Json
    boolean : Bool → Json
    number : ℕ → Json
    string : String → Json
    array : Items → Json
    object : Fields → Json

  pub data Items : Type 0 where
    no_items : Items
    item : Json → Items → Items

  pub data Fields : Type 0 where
    no_fields : Fields
    field : String → Json → Fields → Fields

lookup : String → Fields → Option Json
lookup name no_fields = none
lookup name (field key value fields) = if str_eq key name then some value else lookup name fields

-- `value.name`; `undefined` is `none`, which no other value than an object gives here.
unfoldable pub get_field : String → Json → Option Json
unfolding lookup
get_field name (object fields) = lookup name fields
get_field name _ = none
