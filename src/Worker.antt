-- ===== src/Worker.antt =====
-- rust/crates/clickman-e2e-worker/src/main.rs: a driver that reads commands, one JSON value per line,
-- and calls a client. What an error of the client or of a parser says is a parameter (`Reading`), as is
-- how `serde_json` reads a line.
pub mod Start
pub mod Network
pub mod Main
pub mod Tests
use clickman.Base.{
  ℕ, Bool, true, false, Option, none, some, List, [], ◌∷◌, ◌++◌, length, if◌then◌else◌,
}
use clickman.Base.Int.{ℤ}
use clickman.Base.Text.{Text, text, text_eq}
use clickman.Base.Decimal.{decimal}
use clickman.Json.{Value, Fields, null, bool, number, str, obj, end, field, as_str}
use clickman.Json.Map.{get, insert, extend}
use clickman.Client.Error
use clickman.Client.Config.{Config, new}
use clickman.Client.Backoff.Float.{Float64}
use clickman.Client.Platform.{Platform}
use clickman.Client.Store.{Database}
use clickman.Client.Sender.{Attempt}
use clickman.Client.App.{ClickMan}
use clickman.Client.App as App
use clickman.Protocol.Outcome.{Outcome, ok, err, ◌>>=◌, ok_or, panic}

-- `to_string` of an error, and what is read of a line: a value, or what is wrong with it.
pub record Reading : Type 0 where
  pub message : Error.Error → Text
  pub from_str : Text → Outcome Text Value

-- `Value::get` and the index of a value, which gives null where there is nothing.
abbrev pub get_key : Text → Value → Option Value
get_key name (obj m) = get name m
get_key name _ = none

abbrev pub or_null : Option Value → Value
or_null none = null
or_null (some value) = value

abbrev pub index : Value → Text → Value
index value name = or_null (get_key name value)

-- `field`
unfoldable pub field_of : Value → Text → Outcome Text Value
field_of request name = ok_or (text "the command has no " ++ name) (get_key name request)

-- `text`
unfoldable pub text_of : Value → Text → Outcome Text Text
unfolding field_of as_str ◌>>=◌
text_of request name = do
  value ← field_of request name
  ok_or (name ++ text " is not a string") (as_str value)

-- `fields_of`
unfoldable pub insert_all : List (Text × Value) → Fields → Fields
insert_all [] m = m
insert_all ((key, value) ∷ pairs) m = insert_all pairs (insert key value m)

unfoldable pub fields_of : List (Text × Value) → Fields
unfolding insert_all
fields_of pairs = insert_all pairs end

-- What a command calls, with its arguments.
pub data Command : Type 0 where
  identify : Text → Command
  traits : Value → Command
  track : Text → Value → Command
  reset flush pending : Command

-- The match on the command, up to the call.
unfoldable pub command_of : Value → Text → Outcome Text Command
unfolding text_of field_of ◌>>=◌
command_of request name =
    let identified = (do
      external_id ← text_of request (text "externalId")
      ok (identify external_id)) in
    let changed = (do changes ← field_of request (text "traits"); ok (traits changes)) in
    let tracked = (do
      event ← text_of request (text "event")
      ok (track event (index request (text "properties")))) in
    if text_eq name (text "identify")
    then identified
    else if text_eq name (text "traits")
    then changed
    else if text_eq name (text "track")
    then tracked
    else if text_eq name (text "reset")
    then ok reset
    else if text_eq name (text "flush")
    then ok flush
    else if text_eq name (text "pending")
    then ok pending
    else err (text "unknown command " ++ name)

unfoldable pub read_command : Reading → Text → Outcome Text Command
unfolding text_of command_of ◌>>=◌
read_command reading line = do
  request ← reading.from_str line
  name ← text_of request (text "command")
  command_of request name

-- The fields that a call's result makes, where it has one.
unfoldable pub done : {A : Type 0} → Reading → (A → Fields) → Error.Result A → Outcome Text Fields
done reading fields (Error.ok a) = ok (fields a)
done reading fields (Error.err e) = err (reading.message e)

abbrev pub no_fields : {A : Type 0} → A → Fields
no_fields a = end

abbrev pub message_id_field : Text → Fields
unfolding fields_of
message_id_field id = fields_of ((text "messageId", str id) ∷ [])

-- `pending`
unfoldable pub pending_fields : ClickMan → Fields
unfolding fields_of App.pending
pending_fields c = fields_of ((text "pending", number (decimal (App.pending c))) ∷ [])

module _ (p : Platform) (config : Config) (f : Float64) (reading : Reading) where
  -- `flush`, on the client after the drain; `none` is a drain that still runs.
  unfoldable pub flushed :
      Option (Error.Result (Unit {0})) × ClickMan → Option (Outcome Text Fields) × ClickMan
  unfolding done pending_fields
  flushed (none, c) = (none, c)
  flushed (some result, c) = (some (done reading (λ _. pending_fields c) result), c)

  abbrev pub at_once :
      {A : Type 0}
      → (A → Fields)
      → Error.Result A × ClickMan
      → Option (Outcome Text Fields) × ClickMan
  unfolding done
  at_once fields (result, c) = (some (done reading fields result), c)

  -- The calls of `execute`.
  unfoldable pub perform :
      Command → ℤ → List (Attempt f) → ClickMan → Option (Outcome Text Fields) × ClickMan
  unfolding App.identify App.set_traits App.track App.reset App.flush flushed pending_fields
  perform (identify external_id) now attempts c =
      at_once no_fields (App.identify p config external_id c)
  perform (traits changes) now attempts c = at_once no_fields (App.set_traits p config changes c)
  perform (track event properties) now attempts c =
      at_once message_id_field (App.track p config event properties now c)
  perform reset now attempts c = at_once no_fields (App.reset p config c)
  perform flush now attempts c = flushed (App.flush p config f attempts c)
  perform pending now attempts c = (some (ok (pending_fields c)), c)

  unfoldable pub executed :
      Outcome Text Command
      → ℤ
      → List (Attempt f)
      → ClickMan
      → Option (Outcome Text Fields) × ClickMan
  unfolding perform
  executed (ok command) now attempts c = perform command now attempts c
  executed (err e) now attempts c = (some (err e), c)
  executed panic now attempts c = (some panic, c)

  unfoldable pub execute :
      Text → ℤ → List (Attempt f) → ClickMan → Option (Outcome Text Fields) × ClickMan
  unfolding read_command executed
  execute line now attempts c = executed (read_command reading line) now attempts c

  -- The line that is emitted; a panic emits none.
  abbrev pub answered : Outcome Text Fields → Option Value
  unfolding fields_of
  answered (ok fields) = some (obj (extend (fields_of ((text "ok", bool true) ∷ [])) fields))
  answered (err e) = some (obj (field (text "ok") (bool false) (field (text "error") (str e) end)))
  answered panic = none

  abbrev pub emitted : Option (Outcome Text Fields) × ClickMan → Option Value × ClickMan
  emitted (none, c) = (none, c)
  emitted (some outcome, c) = (answered outcome, c)

  unfoldable pub answer : Text → ℤ → List (Attempt f) → ClickMan → Option Value × ClickMan
  unfolding execute
  answer line now attempts c = emitted (execute line now attempts c)

  -- The loop of `main` over the lines: what is emitted for each, up to one that is not answered.
  unfoldable pub serve : List (Text × ℤ × List (Attempt f)) → ClickMan → List Value × ClickMan
  unfolding answer
  serve [] c = ([], c)
  serve ((line, now, attempts) ∷ lines) c =
      let (answer, c') = answer line now attempts c in
      let (rest, last) = serve lines c' in
      elim answer [ none ↦ ([], c') | some value ↦ (value ∷ rest, last) ]
