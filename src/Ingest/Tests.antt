-- ===== src/Ingest/Tests.antt =====
-- The theorems about the server crate at concrete inputs.
pub mod Serving
pub mod Hosting
use clickman.Base.{
  ℕ, ◌+◌, ◌-◌, ◌*◌, ◌≤◌, ◌≡◌, refl, true, none, some, List, [], ◌∷◌, length, arith, All,
}
use clickman.Base.Int.{pos}
use clickman.Base.Text.{text, as_bytes}
use clickman.Json.{end}
use clickman.Protocol.Batch.{Event, default_limits}
use clickman.Protocol.Tests.{externals, whole, whole-FloatsLaws}
use clickman.Ingest.Limiter.{
  allowed, second, Bucket, Buckets, default_limit, refill, or_insert, find, take, check,
}
use clickman.Ingest.Limiter.Clients.{WellFormed, check_exact}
use clickman.Ingest.Body.{Gunzip, decode, decode_bounded, max_decompressed_bytes}
use clickman.Ingest.Database.{Row, row_of, has_id, insert}
use clickman.Ingest.Database.Laws
use clickman.Ingest.Database.Laws.{Sourced, insert_once}
use clickman.Ingest.Settings.{
  Settings, Published, default_published, newest_name, empty, from_published, source_for,
  source_for-from_published, IsHex,
}
use clickman.Ingest.App.{Request, AppState, Moment, batch}
use clickman.Ingest.App.Answers.{Promises, batch_answers}

abbrev pub spent : Bucket
spent = record { tokens = 0; refreshed = 5 }

abbrev buckets : Buckets
buckets = (text "b", spent) ∷ []

check_exact_example :
    ((check whole (text "a") default_limit 9 buckets).0
      ≡ (take whole default_limit 9 (or_insert (find (text "a") buckets) default_limit 9)).0)
    × (refill whole default_limit 9 (
          or_insert
            (find (text "b") (check whole (text "a") default_limit 9 buckets).1)
            default_limit
            9)
        ≡ refill whole default_limit 9 (or_insert (find (text "b") buckets) default_limit 9))
    × WellFormed whole whole-FloatsLaws (check whole (text "a") default_limit 9 buckets).1
unfolding WellFormed
check_exact_example =
    check_exact whole whole-FloatsLaws default_limit
      (record { rate = refl; finite = refl; burst = refl; above = refl; within = refl }) 9
      (text "a") (text "b") buckets (refl, refl, tt) (ground arith)

abbrev pub gunzip : List ℕ → Gunzip
gunzip bytes = record { output = bytes; broken = none }

abbrev bytes : List ℕ
bytes = 1 ∷ 2 ∷ []

decode_bounded_example : length bytes ≤ max_decompressed_bytes
unfolding decode
decode_bounded_example = decode_bounded gunzip none bytes bytes (omega arith) refl

abbrev pub event : ℕ → Event
event id = record {
  message_id = id;
  event = text "x";
  external_id = text "u";
  occurred_at = pos 0;
  properties = end;
  context = end;
}

abbrev pub stored : List Row
stored = row_of (pos 0) (event 1) ∷ []

pub stored-Distinct : Laws.Distinct stored
unfolding Laws.Distinct
stored-Distinct = (refl, tt)

insert_once_example :
    Laws.Distinct (insert (event 1 ∷ event 2 ∷ []) (pos 1) stored).1
    × (length (insert (event 1 ∷ event 2 ∷ []) (pos 1) stored).1
        ≡ length stored + (insert (event 1 ∷ event 2 ∷ []) (pos 1) stored).0)
    × All
        (λ e. has_id e.message_id (insert (event 1 ∷ event 2 ∷ []) (pos 1) stored).1 ≡ true)
        (event 1 ∷ event 2 ∷ [])
    × All
        (Sourced (event 1 ∷ event 2 ∷ []) (pos 1) stored)
        (insert (event 1 ∷ event 2 ∷ []) (pos 1) stored).1
    × (insert (event 1 ∷ event 2 ∷ []) (pos 2) (insert (event 1 ∷ event 2 ∷ []) (pos 1) stored).1
        ≡ (0, (insert (event 1 ∷ event 2 ∷ []) (pos 1) stored).1))
insert_once_example = insert_once (event 1 ∷ event 2 ∷ []) (pos 1) (pos 2) stored stored-Distinct

abbrev pub settings : Settings
settings = record {
  sources = (text "6b6579", text "web") ∷ [];
  fragments = [];
  limits = default_limits;
  rate_limit = default_limit;
}

abbrev pub request : Request
request = record {
  authorization = some (text "Bearer key");
  forwarded_for = none;
  peer = none;
  content_encoding = none;
  to_bytes = λ limit. some [];
}

abbrev pub moment : Moment
moment = record { received_at = pos 0; instant = 0; database_works = true }

abbrev pub state : AppState
state = record { buckets = []; rows = stored }

batch_answers_example :
    Promises externals settings moment.received_at
      (batch externals gunzip (λ s. s) settings request moment state).0
      stored
      (batch externals gunzip (λ s. s) settings request moment state).1.rows
    × Laws.Distinct (batch externals gunzip (λ s. s) settings request moment state).1.rows
batch_answers_example =
    batch_answers externals gunzip (λ s. s) settings request moment state stored-Distinct

abbrev pub published : Published
published = record default_published {
  write_keys = record { name = text "web"; digest = text "6b6579" } ∷ [];
}

source_for-from_published_example :
    (source_for (λ s. s) (record settings { fragments = published.fragments }) (text "key")
      ≡ newest_name (λ s. s) (text "6b6579") published.write_keys none)
    × (source_for (λ s. s) (empty (λ s. s)) (text "key") ≡ none)
unfolding from_published IsHex as_bytes
source_for-from_published_example =
    source_for-from_published (λ s. s) (λ s. s) (λ d. some default_limits.max_event_age) published
      (record settings { fragments = published.fragments }) (text "key") (text "6b6579") refl
      (
        6,
        11,
        ground arith,
        ground arith,
        refl,
        (6, 5, ground arith, ground arith, refl, (7, 9, ground arith, ground arith, refl, tt)),
      )
