-- ===== src/Client/Event.antt =====
-- rust/crates/clickman/src/event.rs
pub mod Record
use clickman.Base.{ℕ, suc, Bool, true, false, Option, none, some, if◌then◌else◌}
use clickman.Base.Int.{ℤ}
use clickman.Base.Text.{Text, text}
use clickman.Json.{Value, Fields, str, obj, end, field}
use clickman.Client.Error.{ok, err, invalid_event}
use clickman.Client.Platform.{Platform}
use clickman.Client.Clock.{unix_millis, rfc3339_millis}
use clickman.Client.Store.{Database, Tx, ◌>>=◌, ◌>>◌, pure, fail}
use clickman.Client.Identity.{Actor, actor, is_valid_text}
use clickman.Client.Context.{with_traits}
use clickman.Client.Queue

abbrev pub max_event_chars : ℕ
max_event_chars = 200

pub record Recorder : Type 0 where
  pub context : Fields
  pub now : ℤ
  pub max_queue : ℕ

-- The JSON of an event, as `json!` builds it.
unfoldable pub event_body : Platform → Recorder → Actor → Text → Text → Fields → Value
unfolding rfc3339_millis with_traits
event_body p r actor message_id event properties = obj (
    field (text "type") (str (text "track")) (
      field (text "messageId") (str message_id) (
        field (text "event") (str event) (
          field (text "externalId") (str actor.external_id) (
            field (text "timestamp") (str (rfc3339_millis (p.civil r.now))) (
              field (text "properties") (obj properties)
                (field (text "context") (obj (with_traits r.context actor.traits)) end)))))))

-- `Recorder::body`
unfoldable pub body : Platform → Recorder → Text → Text → Fields → Tx Value
unfolding event_body actor ◌>>=◌ pure
body p r message_id event properties = do
  a ← actor p
  pure (event_body p r a message_id event properties)

-- `Recorder::insert`
unfoldable pub insert : Platform → Recorder → Value → Tx Unit
unfolding unix_millis Queue.insert
insert p r body db = ok (tt, Queue.insert (unix_millis r.now) (p.render body) db)

-- `Recorder::trim`
unfoldable pub trim : Recorder → Tx Unit
unfolding Queue.trim
trim r db = ok (tt, Queue.trim r.max_queue db)

unfoldable pub next_id : Platform → Tx Text
next_id p db = ok (p.now_v7 (suc db.sequence), db)

-- `Recorder::record`
unfoldable pub record_event : Platform → Recorder → Text → Fields → Tx Text
unfolding is_valid_text next_id body insert trim ◌>>=◌ pure fail
record_event p r event properties =
    if is_valid_text event max_event_chars
    then (do
      message_id ← next_id p
      value ← body p r message_id event properties
      insert p r value
      trim r
      pure message_id)
    else fail invalid_event
