-- ===== src/Wire/Delivery.antt =====
-- A batch from the queue of the client to the table of the server: `send_next` of
-- rust/crates/clickman/src/sender.rs against `batch` of rust/crates/clickman-ingest/src/app.rs. What
-- lies between them, HTTP, gzip and the reading of JSON, is in the laws.
use mathlib.Core.List.{Memᴰ}
use clickman.Base.{
  ℕ, ◌≡◌, refl, sym, ap, ◌∙◌, ◌⊎◌, inl, inr, true, Option, none, some, List, All-at, arith,
}
use clickman.Base.Text.{Text, text, as_bytes}
use clickman.Json.{Value, Items, arr}
use clickman.Client.Error.{ok}
use clickman.Client.Clock.{rfc3339_millis}
use clickman.Client.Config.{Config}
use clickman.Client.Outcome.{delivered, of}
use clickman.Client.Backoff.Float.{Float64}
use clickman.Client.Platform.{Platform}
use clickman.Client.Queue.{Batch, Urgency, payload}
use clickman.Client.Sender
use clickman.Client.Sender.{
  Attempt, World, Reply, response, unreachable, answer_of, post, settle, settle_as, deliver,
  send_taken, reserve, send_next, headers,
}
use clickman.Client.Sender.Keeps.{request, taking, send_next-Posted}
use clickman.Protocol.Batch.{Reason, Rejection, Externals, then_parse, item_message_id}
use clickman.Protocol.Batch.Split.{item_at}
use clickman.Protocol.Batch.Handled.{normalize_items-Handled, normalize-IsRead, normalize_event-id}
use clickman.Ingest.Body.{Gunzip, decode, max_wire_bytes}
use clickman.Ingest.Database.{has_id}
use clickman.Ingest.Database.Laws.{insert-stores}
use clickman.Ingest.Settings.{Settings}
use clickman.Ingest.App
use clickman.Ingest.App.{Response, AppState, Moment, batch}
use clickman.Ingest.App.Stored.{IsDelivered, Normal, accepted, batch-Through}
use clickman.Wire.Carriage.{replied, Carried, find_header, decode-gzip, Parsed, Formats}

arr-inj : (a b : Items) → ◌≡◌ {A = Option Value} (some (arr a)) (some (arr b)) → a ≡ b
arr-inj a b h = ground arith

module _ (p : Platform) (f : Float64) (config : Config) (x : Externals) (gunzip : List ℕ → Gunzip)
    (sha256 : List ℕ → List ℕ) (settings : Settings) (moment : Moment) (state : AppState)
    (arrived : Sender.Request → App.Request)
    (carried : (sent : Sender.Request) → Carried sent (arrived sent)) where
  -- The server's answer to a request of the client, and its state after it.
  abbrev pub served : Sender.Request → Option Response × AppState
  served sent = batch x gunzip sha256 settings (arrived sent) moment state

  -- The answer says what became of the item at an index of a batch: its event is in the table, by the
  -- id of the item, or it is rejected, under its index and its id, with a reason.
  pub record Accounted (sent : Sender.Request) (index : ℕ) (item : Value) : Type 0 where
    pub inserted : ℕ
    pub duplicates : ℕ
    pub rejected : List Rejection
    pub answer : (served sent).0 ≡ some (accepted inserted duplicates rejected)
    pub outcome :
        ((id : ℕ) × (then_parse x.parse_uuid (item_message_id item) ≡ some id)
          × (has_id id (served sent).1.rows ≡ true))
        ⊎ ((reason : Reason) × Memᴰ
              (record { index = index; message_id = item_message_id item; reason = reason })
              rejected)

  wire_body :
      (sent : Sender.Request) (wire : List ℕ)
      → (arrived sent).to_bytes max_wire_bytes ≡ some wire
      → sent.body ≡ wire
  wire_body sent wire h = let e = sym ((carried sent).to_bytes max_wire_bytes) ∙ h in ground arith

  Normal-Accounted :
      (sent : Sender.Request) (b : Batch) (sent_at : Text) (values : Items) (index : ℕ)
      (item : Value) (bytes : List ℕ)
      → Formats p x gunzip b sent_at
      → bytes ≡ as_bytes (payload b sent_at)
      → Parsed x.from_slice b.bodies values
      → item_at 0 values index ≡ some item
      → Normal x gunzip sha256 settings moment state.rows bytes
          ((served sent).0, (served sent).1.rows)
      → Accounted sent index item
  Normal-Accounted sent b sent_at values index item bytes formats same parsed at n =
      let read =
        normalize-IsRead x settings.fragments settings.limits moment.received_at bytes n.normalized
          n.is_normal in
      let its = arr-inj _ _ (
        sym read.batch
        ∙ formats.joined values read.root parsed (ap x.from_slice (sym same) ∙ read.parsed)) in
      record {
        inserted = _;
        duplicates = _;
        rejected = n.normalized.rejected;
        answer = ap (λ r. r.0) n.result_is;
        outcome =
            elim (normalize_items-Handled x _ read.items 0 n.normalized index item read.normal
              (ap (λ items. item_at 0 items index) its ∙ at)) [
                | inl (event, normal, found) ↦ inl (
                  event.message_id,
                  normalize_event-id x settings.fragments settings.limits moment.received_at
                      read.skew read.context item event normal,
                  ap (λ r. has_id event.message_id r.1) n.result_is
                      ∙ All-at _ n.normalized.events event
                          (insert-stores n.normalized.events moment.received_at state.rows) found,
                )
                | inr (reason, why, found) ↦ inr (reason, found)
              ];
      }

  pub served-Accounted :
      (b : Batch) (sent_at : Text) (wire : List ℕ) (values : Items) (index : ℕ) (item : Value)
      (sent : Sender.Request)
      → Formats p x gunzip b sent_at
      → sent.body ≡ wire
      → find_header (text "Content-Encoding") sent.headers ≡ some (text "gzip")
      → p.compress (payload b sent_at) ≡ some wire
      → Parsed x.from_slice b.bodies values
      → item_at 0 values index ≡ some item
      → IsDelivered (served sent).0
      → Accounted sent index item
  served-Accounted b sent_at wire values index item sent formats is_body gzipped compressed parsed
        at h =
      let (read, bytes, is_read, decoded, n) =
        batch-Through x gunzip sha256 settings (arrived sent) moment state h in
      let same_wire = sym is_body ∙ wire_body sent read is_read in
      let whole = ap gunzip (sym same_wire) ∙ formats.whole wire compressed in
      let plain = decode-gzip gunzip read _ bytes whole (
        sym (ap (λ e. decode gunzip e read) ((carried sent).content_encoding ∙ gzipped))
        ∙ decoded) in
      Normal-Accounted sent b sent_at values index item bytes formats plain parsed at n

  replied-IsDelivered :
      (answer : Option Response)
      → of (answer_of (replied answer)).status ≡ delivered
      → IsDelivered answer
  unfolding of answer_of
  replied-IsDelivered none h = absurd (ground arith)
  replied-IsDelivered (some r) h = h

  module _ (urgency : Urgency) (attempt : Attempt f) (w : World) where
    -- A send that comes to delivered, of a batch whose bodies are JSON, made a request whose answer
    -- accounts for each of its items: its event is in the table of the server, or the answer names it
    -- among the rejections. This is so where the server as modelled gives the answer, HTTP carries the
    -- encoding and the body, and gzip and JSON read back as `Formats` says.
    pub delivered-stored :
        (b : Batch) (values : Items) (index : ℕ) (item : Value)
        → Formats p x gunzip b (rfc3339_millis (p.civil attempt.now))
        → ((sent : Sender.Request) → attempt.reply sent ≡ replied (served sent).0)
        → (taking p f config attempt urgency w).0 ≡ some b
        → (send_next p f config urgency attempt w).0 ≡ ok (some delivered)
        → Parsed x.from_slice b.bodies values
        → item_at 0 values index ≡ some item
        → (wire : List ℕ) × (p.compress (payload b (rfc3339_millis (p.civil attempt.now)))
            ≡ some wire)
          × Accounted (request p f config attempt wire) index item
    unfolding headers find_header
    delivered-stored b values index item formats serves takes comes parsed at =
        let posted = send_next-Posted p f config attempt urgency w b delivered takes comes in
        let sent = request p f config attempt posted.body in
        (
          posted.body,
          posted.sent,
          served-Accounted b _ posted.body values index item sent formats refl refl posted.sent
              parsed at
              (replied-IsDelivered (served sent).0
                (ap (λ r. of (answer_of r).status) (sym (serves sent)) ∙ posted.answer)),
        )
