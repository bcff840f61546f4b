-- ===== src/Protocol/Flatten.antt =====
-- rust/crates/clickman-protocol/src/flatten.rs. `render` stands for `Value::to_string` of
-- `serde_json`, the compact JSON text of a value.
pub mod Shape
pub mod Leaves
use clickman.Base.{ℕ, ◌+◌, List, [], ◌∷◌, ◌++◌, Option, none, some, take, ltb, if◌then◌else◌}
use clickman.Base.Text.{Text}
use clickman.Json.{Value, Fields, null, bool, number, str, arr, obj, end, field}
use clickman.Json.Map.{insert}

abbrev pub max_depth : ℕ
max_depth = 5

abbrev pub max_string_chars : ℕ
max_string_chars = 1024

-- `char_indices().nth(1024)` is the place where the 1025th character begins, if there is one.
unfoldable pub truncate : Text → Text
truncate text = take max_string_chars text

-- `{prefix}.{key}`, or the key alone at the top.
abbrev pub path_of : Option Text → Text → Text
path_of none key = key
path_of (some prefix) key = prefix ++ b'.' ∷ key

module _ (render : Value → Text) where
  unfoldable pub walk : Fields → Option Text → ℕ → Fields → Fields
  unfolding truncate
  walk end prefix depth flat = flat
  walk (field key (obj inner) rest) prefix depth flat =
      let path = path_of prefix key in
      walk rest prefix depth (
        if ltb depth max_depth
        then walk inner (some path) (depth + 1) flat
        else insert path (str (render (obj inner))) flat)
  walk (field key (arr items) rest) prefix depth flat =
      walk rest prefix depth (insert (path_of prefix key) (str (render (arr items))) flat)
  walk (field key (str text) rest) prefix depth flat =
      walk rest prefix depth (insert (path_of prefix key) (str (truncate text)) flat)
  walk (field key scalar rest) prefix depth flat =
      walk rest prefix depth (insert (path_of prefix key) scalar flat)

  unfoldable pub flatten : Fields → Fields
  unfolding walk
  flatten object = walk object none 1 end
