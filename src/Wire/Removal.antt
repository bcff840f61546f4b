-- ===== src/Wire/Removal.antt =====
-- The events that leave the queue of rust/crates/clickman/src/sender.rs because their batch was delivered.
use clickman.Base.{
  ℕ, zero, suc, ◌+◌, ◌<◌, ◌≡◌, sym, ap, ◌∙◌, inl, inr, true, false, not, some, List, [], ◌∷◌, take,
  keep, get_elem?, ltb, ◌==◌, Bool-cases, arith,
}
use clickman.Base.Text.{Text, as_bytes}
use clickman.Json.{Value, Items, nil, cons}
use clickman.Client.Error.{ok}
use clickman.Client.Clock.{unix_millis, rfc3339_millis}
use clickman.Client.Config.{Config}
use clickman.Client.Outcome.{delivered}
use clickman.Client.Backoff.Float.{Float64}
use clickman.Client.Platform.{Platform}
use clickman.Client.Store.{Row, Database}
use clickman.Client.Queue.{Batch, Urgency, mem_seq, last, bodies_of, payload, remove}
use clickman.Client.Queue.Order.{Ascending, IsOrdered, take_batch-IsOrdered}
use clickman.Client.Queue.Take.{count, take_batch_oldest}
use clickman.Client.Sender
use clickman.Client.Sender.{Attempt, World, send_next}
use clickman.Client.Sender.Keeps.{leaves, request, taking, send_next-Left}
use clickman.Protocol.Outcome
use clickman.Protocol.Batch.{Externals}
use clickman.Protocol.Batch.Split.{item_at}
use clickman.Ingest.App
use clickman.Ingest.App.{AppState, Moment}
use clickman.Ingest.Body.{Gunzip}
use clickman.Ingest.Settings.{Settings}
use clickman.Wire.Carriage.{Carried, Formats, Parsed, replied}
use clickman.Wire.Delivery.{Accounted, served, delivered-stored}

-- What `remove` deletes is below the last number of its batch.
mem_seq-removed :
    (s n : ℕ) (rows : List Row)
    → mem_seq s rows ≡ true
    → mem_seq s (keep (λ (row : Row). not (ltb row.seq n)) rows) ≡ false
    → s < n
mem_seq-removed s n [] h gone = absurd (ground arith)
mem_seq-removed s n (row ∷ rows) h gone = elim (Bool-cases (ltb row.seq n)) [
  | inl e ↦ elim (Bool-cases (row.seq == s)) [
    | inl same ↦ ground arith
    | inr other ↦ mem_seq-removed s n rows (rw other at h) (rw e at gone)
  ]
  | inr e ↦ elim (Bool-cases (row.seq == s)) [
    | inl same ↦ absurd (ground arith)
    | inr other ↦ mem_seq-removed s n rows (rw other at h) (rw other at (rw e at gone))
  ]
]

elem_above :
    (n i : ℕ) (rows : List Row) (r : Row) → Ascending n rows → get_elem? rows i ≡ some r → n < r.seq
elem_above n i [] r a h = absurd (ground arith)
elem_above n zero (row ∷ rows) r a h = ground arith
elem_above n (suc i) (row ∷ rows) r a h = omega (arith, elem_above row.seq i rows r a.1 h)

-- A row below the newest of the first rows is one of them.
elem_taken :
    (k n i : ℕ) (rows : List Row) (r newest : Row)
    → Ascending k rows
    → last (take n rows) ≡ some newest
    → get_elem? rows i ≡ some r
    → r.seq < newest.seq
    → get_elem? (take n rows) i ≡ some r
unfolding last
elem_taken k zero i rows r newest a l h below = absurd (ground arith)
elem_taken k (suc n) i [] r newest a l h below = absurd (ground arith)
elem_taken k (suc n) zero (row ∷ rows) r newest a l h below = h
elem_taken k (suc zero) (suc i) (row ∷ rows) r newest a l h below =
    absurd (ground (arith, elem_above row.seq i rows r a.1 h))
elem_taken k (suc (suc n)) (suc i) (row ∷ []) r newest a l h below = absurd (ground arith)
elem_taken k (suc (suc n)) (suc i) (row ∷ row' ∷ rows) r newest a l h below =
    elem_taken row.seq (suc n) i (row' ∷ rows) r newest a.1 l h below

elem-map :
    (i : ℕ) (rows : List Row) (r : Row)
    → get_elem? rows i ≡ some r
    → get_elem? (bodies_of rows) i ≡ some r.body
elem-map i [] r h = absurd (ground arith)
elem-map zero (row ∷ rows) r h = ground arith
elem-map (suc i) (row ∷ rows) r h = elem-map i rows r h

Parsed-at :
    (from_slice : List ℕ → Outcome.Outcome Text Value) (from i : ℕ) (bodies : List Text)
    (values : Items) (body : Text)
    → Parsed from_slice bodies values
    → get_elem? bodies i ≡ some body
    → (value : Value) × (from_slice (as_bytes body) ≡ Outcome.ok value)
      × (item_at from values (from + i) ≡ some value)
unfolding item_at
Parsed-at from_slice from i [] values body parsed h = absurd (ground arith)
Parsed-at from_slice from i (b ∷ bodies) nil body parsed h = absurd (parsed)
Parsed-at from_slice from zero (b ∷ bodies) (cons v values) body parsed h =
    (v, ground arith, ground arith)
Parsed-at from_slice from (suc i) (b ∷ bodies) (cons v values) body parsed h =
    let (value, reads, found) = Parsed-at from_slice (suc from) i bodies values body parsed.1 h in
    (value, reads, ground arith)

some-inj : (a b : Batch) → some a ≡ some b → a ≡ b
some-inj a b h = ground arith

module _ (p : Platform) (f : Float64) (config : Config) (x : Externals) (gunzip : List ℕ → Gunzip)
    (sha256 : List ℕ → List ℕ) (settings : Settings) (moment : Moment) (state : AppState)
    (arrived : Sender.Request → App.Request)
    (carried : (sent : Sender.Request) → Carried sent (arrived sent)) (urgency : Urgency)
    (attempt : Attempt f) (w : World) where
  abbrev pub kept : Database
  kept = (taking p f config attempt urgency w).1

  abbrev pub after : Database
  after = (send_next p f config urgency attempt w).1.database

  below_last :
      (b : Batch) (r : Row)
      → (taking p f config attempt urgency w).0 ≡ some b
      → (send_next p f config urgency attempt w).0 ≡ ok (some delivered)
      → mem_seq r.seq (attempt.meanwhile kept).events ≡ true
      → mem_seq r.seq after.events ≡ false
      → r.seq < b.last_seq
  unfolding remove
  below_last b r takes comes before gone =
      let (batch, took, left) = send_next-Left p f config attempt urgency w (ap (leaves) comes) in
      let same = some-inj batch b (sym took ∙ takes) in
      let removed = left.removed ∙ ap (λ b. remove b (attempt.meanwhile kept)) same in
      mem_seq-removed r.seq b.last_seq (attempt.meanwhile kept).events before
        (ap (λ (db : Database). mem_seq r.seq db.events) (sym removed) ∙ gone)

  -- An event that leaves the queue in a send that comes to delivered has reached the server: of an event
  -- that the send found in the queue, where it was until the answer came, and that is not there after it,
  -- the row is in the table under the id of its body, or the answer names it among the rejections. This
  -- is so whatever else the other calls did to a queue in order, where all bodies of the batch are JSON,
  -- the server as modelled gives the answer, and HTTP, gzip and JSON carry it over.
  pub removed-Accounted :
      (b : Batch) (values : Items) (i : ℕ) (r : Row)
      → IsOrdered w.database
      → Formats p x gunzip b (rfc3339_millis (p.civil attempt.now))
      → ((sent : Sender.Request)
          → attempt.reply sent
            ≡ replied
                (served p f config x gunzip sha256 settings moment state arrived carried sent).0)
      → (taking p f config attempt urgency w).0 ≡ some b
      → Parsed x.from_slice b.bodies values
      → (send_next p f config urgency attempt w).0 ≡ ok (some delivered)
      → get_elem? kept.events i ≡ some r
      → mem_seq r.seq (attempt.meanwhile kept).events ≡ true
      → mem_seq r.seq after.events ≡ false
      → (value : Value) × (x.from_slice (as_bytes r.body) ≡ Outcome.ok value)
        × (wire : List ℕ) × (p.compress (payload b (rfc3339_millis (p.civil attempt.now)))
            ≡ some wire)
        × Accounted p f config x gunzip sha256 settings moment state arrived carried
            (request p f config attempt wire)
            i
            value
  removed-Accounted b values i r ordered formats serves takes parsed comes found before gone =
      let now = unix_millis attempt.now in
      let below = below_last b r takes comes before gone in
      let (newest, prefix) = (take_batch_oldest config now urgency w.database b takes).2 in
      let order = take_batch-IsOrdered config now urgency w.database ordered in
      let n = count config now urgency kept in
      let in_batch =
        elem_taken 0 n i kept.events r newest order.ascending prefix.is_last found
          (omega (arith, prefix.last_seq, below)) in
      let in_bodies =
        ap (λ bodies. get_elem? bodies i) prefix.bodies
        ∙ elem-map i (take n kept.events) r in_batch in
      let (value, reads, at) = Parsed-at x.from_slice 0 i b.bodies values r.body parsed in_bodies in
      let start : 0 + i ≡ i = omega arith in
      let (wire, compressed, accounted) =
        delivered-stored p f config x gunzip sha256 settings moment state arrived carried urgency
          attempt w b values i value formats serves takes comes parsed
          (ap (item_at 0 values) (sym start) ∙ at) in
      (value, reads, wire, compressed, accounted)
