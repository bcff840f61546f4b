-- ===== src/Protocol/Merge.antt =====
-- `deep_merge` of rust/crates/clickman-protocol/src/batch.rs: an event's own context over that of
-- its batch.
use clickman.Base.{Option, none, some}
use clickman.Base.Text.{Text}
use clickman.Json.{Value, Fields, obj, end, field}
use clickman.Json.Map.{get, insert, Unique}
use clickman.Json.Laws.{insert-Unique}

-- The match of the loop: an object on both sides is merged, anything else is replaced.
abbrev pub merged_value : Option Value → (Fields → Fields) → Value → Value
merged_value (some (obj inner)) merge value = obj (merge inner)
merged_value _ merge value = value

unfoldable pub deep_merge : Fields → Fields → Fields
deep_merge base end = base
deep_merge base (field key (obj value) rest) =
    deep_merge
      (insert key (merged_value (get key base) (λ inner. deep_merge inner value) (obj value)) base)
      rest
deep_merge base (field key value rest) = deep_merge (insert key value base) rest

-- What the merge holds under a key, by what the two sides hold there.
abbrev pub merged : Option Value → Option Value → Option Value
merged below none = below
merged below (some (obj value)) =
    some (merged_value below (λ inner. deep_merge inner value) (obj value))
merged below (some value) = some value

pub deep_merge-Unique : (over base : Fields) → Unique base → Unique (deep_merge base over)
unfolding deep_merge
deep_merge-Unique end base u = u
deep_merge-Unique (field key (obj value) rest) base u =
    deep_merge-Unique rest _ (insert-Unique key _ base u)
deep_merge-Unique (field key _ rest) base u = deep_merge-Unique rest _ (insert-Unique key _ base u)
