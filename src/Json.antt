-- ===== src/Json.antt =====
-- JSON values as `serde_json` holds them, with `preserve_order` (rust/Cargo.toml): an object is a
-- list of its members in the order in which they were inserted. A number is kept as the text that
-- stands for it, since the program never looks into one. `Json/Map.antt` has what the program calls
-- of `serde_json::Map`, and `Json/Laws.antt` the laws of these calls.
pub mod Map
pub mod Laws
use clickman.Base.{Bool, true, false, Option, none, some}
use clickman.Base.Text.{Text}

mutual
  pub data Value : Type 0 where
    null : Value
    bool : Bool → Value
    number : Text → Value
    str : Text → Value
    arr : Items → Value
    obj : Fields → Value

  pub data Items : Type 0 where
    nil : Items
    cons : Value → Items → Items

  pub data Fields : Type 0 where
    end : Fields
    field : Text → Value → Fields → Fields

-- `Value::as_str`, `as_array` and `as_object`.
unfoldable pub as_str : Value → Option Text
as_str (str s) = some s
as_str _ = none

unfoldable pub as_array : Value → Option Items
as_array (arr xs) = some xs
as_array _ = none

unfoldable pub as_object : Value → Option Fields
as_object (obj m) = some m
as_object _ = none

unfoldable pub is_null : Value → Bool
is_null null = true
is_null _ = false
