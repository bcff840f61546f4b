-- ===== src/Client/Identity.antt =====
-- rust/crates/clickman/src/identity.rs and `is_valid_text` of rust/crates/clickman/src/event.rs.
pub mod Traits
use clickman.Base.{
  ℕ, Bool, true, false, ◌&&◌, not, Option, none, some, List, [], length, leb, any, if◌then◌else◌,
}
use clickman.Base.Text.{Text, text, is_control}
use clickman.Json.{Value, Fields, obj, is_null}
use clickman.Json.Map.{extend, retain}
use clickman.Client.Error.{ok, err, invalid_external_id, stored_traits}
use clickman.Client.Platform.{Platform}
use clickman.Client.Store.{Database, Tx, ◌>>=◌, pure, fail}

-- `is_valid_text`
unfoldable pub is_valid_text : Text → ℕ → Bool
is_valid_text text max_chars =
    leb 1 (length text) && leb (length text) max_chars && not (any is_control text)

abbrev pub max_external_id_chars : ℕ
max_external_id_chars = 256

pub record Actor : Type 0 where
  pub external_id : Text
  pub traits : Fields

unfoldable pub actor : Platform → Tx Actor
actor p db = elim (p.parse_object db.identity.traits) [
  | none ↦ err stored_traits
  | some traits ↦ ok (record { external_id = db.identity.external_id; traits = traits }, db)
]

unfoldable pub identify : Text → Tx Unit
unfolding is_valid_text
identify external_id db =
    if is_valid_text external_id max_external_id_chars
    then ok (tt, record db { identity = record db.identity { external_id = external_id } })
    else err invalid_external_id

unfoldable pub reset : Tx Unit
reset db =
    ok (
      tt,
      record db { identity = record db.identity { external_id = text "*"; traits = text "{}" } },
    )

unfoldable pub merge : Fields → Fields → Fields
merge traits changes = retain (λ value. not (is_null value)) (extend traits changes)

unfoldable pub store_traits : Platform → Fields → Tx Unit
store_traits p traits db =
    ok (tt, record db { identity = record db.identity { traits = p.render (obj traits) } })

unfoldable pub set_traits : Platform → Fields → Tx Unit
unfolding actor merge store_traits ◌>>=◌
set_traits p changes = do a ← actor p; store_traits p (merge a.traits changes)
