-- ===== src/Client/Event/Record.antt =====
-- What recording an event does to the store.
use clickman.Base.{
  suc, ◌-◌, ◌≤◌, ◌≡◌, ◌∙◌, ap, true, false, none, some, [], ◌∷◌, ◌++◌, length, drop, min, arith,
  length-append, inl, inr, Option-cases, ◌⊎◌,
}
use clickman.Base.Int.{i64_max}
use clickman.Base.Text.{Text}
use clickman.Json.{Fields}
use clickman.Client.Error.{Error, ok, err, invalid_event, stored_traits}
use clickman.Client.Platform.{Platform}
use clickman.Client.Clock.{unix_millis}
use clickman.Client.Store.{Row, Database}
use clickman.Client.Identity.{is_valid_text}
use clickman.Client.Queue
use clickman.Client.Queue.Order.{IsOrdered, insert-IsOrdered, trim-IsOrdered}
use clickman.Client.Queue.Trim.{trim-drop, length-trim}
use clickman.Client.Event.{Recorder, max_event_chars, event_body, record_event}

-- The row of an event, and the store once it is in and the queue is trimmed.
module _ (p : Platform) (r : Recorder) (event : Text) (properties : Fields) where
  abbrev pub new_row : Fields → Database → Row
  new_row traits db = record {
    seq = suc db.sequence;
    created_at = unix_millis r.now;
    body = p.render (
        event_body p r (record { external_id = db.identity.external_id; traits = traits })
          (p.now_v7 (suc db.sequence)) event properties);
  }

  abbrev pub stored : Fields → Database → Database
  stored traits db =
      Queue.trim r.max_queue
        (record db { events = db.events ++ new_row traits db ∷ []; sequence = suc db.sequence })

  record_ok :
      (db : Database) (traits : Fields)
      → is_valid_text event max_event_chars ≡ true
      → p.parse_object db.identity.traits ≡ some traits
      → record_event p r event properties db ≡ ok (p.now_v7 (suc db.sequence), stored traits db)
  unfolding record_event
  record_ok db traits valid known = ground arith

  pub record_inv :
      (db db' : Database) (id : Text)
      → record_event p r event properties db ≡ ok (id, db')
      → (traits : Fields) × (db' ≡ stored traits db)
  unfolding record_event
  record_inv db db' id h = elim (Option-cases (p.parse_object db.identity.traits)) [
    | inl unread ↦ absurd (ground arith)
    | inr (traits, known) ↦ (traits, ground arith)
  ]

  IsOrdered-stored : (db : Database) (traits : Fields) → IsOrdered db → IsOrdered (stored traits db)
  unfolding Queue.insert
  IsOrdered-stored db traits o =
      trim-IsOrdered r.max_queue _
        (insert-IsOrdered (new_row traits db).created_at (new_row traits db).body db o)

  -- A valid event, recorded into a queue in order while the stored traits can be read and with
  -- `max_queue` within `i64`, is put last under the next number with the message id that is
  -- returned; from the old end as many events go as are needed for `max_queue` to be left; and
  -- nothing else of the store changes.
  pub record_exact :
      (db : Database) (traits : Fields)
      → is_valid_text event max_event_chars ≡ true
      → p.parse_object db.identity.traits ≡ some traits
      → IsOrdered db
      → r.max_queue ≤ i64_max
      → record_event p r event properties db
        ≡ ok (
          p.now_v7 (suc db.sequence),
          record {
            events =
                drop
                  (length (db.events ++ new_row traits db ∷ []) - r.max_queue)
                  (db.events ++ new_row traits db ∷ []);
            sequence = suc db.sequence;
            identity = db.identity;
          },
        )
  unfolding Queue.insert
  record_exact db traits valid known o bound =
      record_ok db traits valid known
      ∙ ap (λ d. ok (p.now_v7 (suc db.sequence), d))
          (trim-drop r.max_queue _ (insert-IsOrdered _ _ db o) bound)

  -- Recording an event keeps the queue in order, and leaves at most `max_queue` events.
  pub record-IsOrdered :
      (db db' : Database) (id : Text)
      → IsOrdered db
      → r.max_queue ≤ i64_max
      → record_event p r event properties db ≡ ok (id, db')
      → IsOrdered db' × (length db'.events ≡ min r.max_queue (suc (length db.events)))
  unfolding Queue.insert
  record-IsOrdered db db' id o bound h =
      let (traits, e) = record_inv db db' id h in
      rw e (
        IsOrdered-stored db traits o,
        length-trim r.max_queue _
              (insert-IsOrdered (new_row traits db).created_at (new_row traits db).body db o) bound
            ∙ omega (arith, length-append db.events (new_row traits db ∷ [])),
      )

  -- Recording fails only for an invalid name, or for stored traits that cannot be read.
  pub record_errors :
      (db : Database) (e : Error)
      → record_event p r event properties db ≡ err e
      → ((is_valid_text event max_event_chars ≡ false) × (e ≡ invalid_event))
        ⊎ ((is_valid_text event max_event_chars ≡ true)
            × (p.parse_object db.identity.traits ≡ none)
            × (e ≡ stored_traits))
  unfolding record_event
  record_errors db e h = ground arith

  -- Recording leaves the identity alone and draws the next number.
  pub record-identity :
      (db db' : Database) (id : Text)
      → record_event p r event properties db ≡ ok (id, db')
      → (db'.identity ≡ db.identity) × (db'.sequence ≡ suc db.sequence)
  unfolding record_event
  record-identity db db' id h = ground arith
