-- ===== src/Json/Map.antt =====
-- `serde_json::Map<String, Value>` with `preserve_order`: an insertion keeps the place of a key
-- that is there, and puts a new key last.
use clickman.Base.{ℕ, suc, Bool, true, false, Option, none, some, if◌then◌else◌, ◌||◌, ◌≡◌}
use clickman.Base.Text.{Text, text_eq}
use clickman.Json.{Value, Fields, end, field}

unfoldable pub get : Text → Fields → Option Value
get k end = none
get k (field j v m) = if text_eq j k then some v else get k m

unfoldable pub insert : Text → Value → Fields → Fields
insert k v end = field k v end
insert k v (field j w m) = if text_eq j k then field j v m else field j w (insert k v m)

-- `Map::extend`, which inserts the members of the second map in their order.
unfoldable pub extend : Fields → Fields → Fields
extend m end = m
extend m (field k v n) = extend (insert k v m) n

unfoldable pub retain : (Value → Bool) → Fields → Fields
retain p end = end
retain p (field k v m) = if p v then field k v (retain p m) else retain p m

unfoldable pub len : Fields → ℕ
len end = 0
len (field k v m) = suc (len m)

unfoldable pub is_empty : Fields → Bool
is_empty end = true
is_empty (field k v m) = false

-- `keys().any(…)`
unfoldable pub any_key : (Text → Bool) → Fields → Bool
any_key p end = false
any_key p (field k v m) = p k || any_key p m

-- `iter_mut()` with an assignment to each value.
unfoldable pub map_values : (Text → Value → Value) → Fields → Fields
map_values f end = end
map_values f (field k v m) = field k (f k v) (map_values f m)

-- No key twice, which holds of every `Map`.
abbrev pub Unique : Fields → Type 0
Unique end = Unit {0}
Unique (field k v m) = (get k m ≡ none) × Unique m

-- Each member has a property.
abbrev pub Each : (Text → Value → Type 0) → Fields → Type 0
Each P end = Unit {0}
Each P (field k v m) = P k v × Each P m
