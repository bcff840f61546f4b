-- ===== src/Wire/Arrival.antt =====
-- A batch that the server takes: `send_next` of rust/crates/clickman/src/sender.rs against `batch` of
-- rust/crates/clickman-ingest/src/app.rs, where neither has a reason to refuse.
use clickman.Base.{
  ℕ, ◌≤◌, ◌≡◌, refl, ap, ◌∙◌, true, false, Option, none, some, List, [], ◌∷◌, ◌++◌, length,
  take_all, leb, if◌then◌else◌, arith, ◌+◌,
}
use clickman.Base.Text.{Text, text, is_blank, trim, as_bytes}
use clickman.Client.Error.{ok}
use clickman.Client.Clock.{unix_millis, rfc3339_millis}
use clickman.Client.Config.{Config}
use clickman.Client.Outcome.{delivered, of}
use clickman.Client.Backoff.Float.{Float64}
use clickman.Client.Platform.{Platform}
use clickman.Client.Queue.{Batch, Urgency, payload}
use clickman.Client.Sender
use clickman.Client.Sender.{
  Attempt, World, SenderState, response, answer_of, reserve, send_next, headers,
}
use clickman.Client.Sender.Keeps.{request, taking, send_next-outcome}
use clickman.Protocol.Outcome
use clickman.Protocol.Batch.{Normalized, Externals, normalize}
use clickman.Ingest.Body.{
  Gunzip, body, decode, read_limited, check_size, max_decompressed_bytes, max_wire_bytes,
}
use clickman.Ingest.Limiter.{allowed}
use clickman.Ingest.Settings.{Settings, source_for}
use clickman.Ingest.App
use clickman.Ingest.App.{
  Response, AppState, Moment, strip_prefix, strip_bearer, trimmed, bearer, source_of, limit_of,
  batch,
}
use clickman.Ingest.App.{after_normalize}
use clickman.Ingest.App.Stored.{stored_as, with_limit, normalized-stored, batch-read}
use clickman.Wire.Carriage.{find_header, Carried, Formats, replied, read_limited-whole}

-- A write key that a header carries as it is.
abbrev pub IsKey : Text → Type 0
IsKey key = (trim key ≡ key) × (is_blank key ≡ false)

strip_prefix-append : (prefix s : Text) → strip_prefix prefix (prefix ++ s) ≡ some s
unfolding strip_prefix
strip_prefix-append [] s = refl
strip_prefix-append (c ∷ prefix) s = ground (arith, strip_prefix-append prefix s)

bearer-key :
    (request : App.Request) (key : Text)
    → IsKey key
    → request.authorization ≡ some (text "Bearer " ++ key)
    → bearer request ≡ some key
unfolding bearer
bearer-key request key h carries =
    ap (λ a. trimmed (strip_bearer a)) carries
    ∙ ap trimmed (strip_prefix-append (text "Bearer ") key)
    ∙ rw h.0 (rw h.1 refl)

decode-small :
    (gunzip : List ℕ → Gunzip) (wire plain : List ℕ)
    → gunzip wire ≡ record { output = plain; broken = none }
    → length plain ≤ max_decompressed_bytes
    → decode gunzip (some (text "gzip")) wire ≡ body plain
unfolding decode trim
decode-small gunzip wire plain whole small =
    ap check_size (
      ap (read_limited (max_decompressed_bytes + 1)) whole
      ∙ read_limited-whole (max_decompressed_bytes + 1) plain
      ∙ ap body (take_all (max_decompressed_bytes + 1) plain (omega arith)))
    ∙ check_size-small
  where
    check_size-small : check_size (body plain) ≡ body plain
    check_size-small = ground arith

module _ (p : Platform) (f : Float64) (config : Config) (x : Externals) (gunzip : List ℕ → Gunzip)
    (sha256 : List ℕ → List ℕ) (settings : Settings) (moment : Moment) (state : AppState)
    (arrived : Sender.Request → App.Request)
    (carried : (sent : Sender.Request) → Carried sent (arrived sent)) where
  -- The server normalizes what a request of the client carries.
  pub served-read :
      (wire : List ℕ) (sent : Sender.Request) (plain : List ℕ) (source : Text)
      → sent.headers ≡ headers config
      → sent.body ≡ wire
      → gunzip wire ≡ record { output = plain; broken = none }
      → IsKey config.write_key
      → source_for sha256 settings config.write_key ≡ some source
      → (limit_of x gunzip sha256 settings source (arrived sent) moment state).0 ≡ some allowed
      → length wire ≤ max_wire_bytes
      → length plain ≤ max_decompressed_bytes
      → batch x gunzip sha256 settings (arrived sent) moment state
        ≡ with_limit x gunzip sha256 settings (arrived sent) moment state source (
            after_normalize x gunzip sha256 settings
              (normalize x plain moment.received_at settings.fragments settings.limits)
              moment
              state.rows)
  unfolding headers find_header
  served-read wire sent plain source has is_body whole key known let_through fits small =
      let c = carried sent in
      batch-read x gunzip sha256 settings (arrived sent) moment state source wire plain
        (ap (source_of x gunzip sha256 settings) (
            bearer-key (arrived sent) config.write_key key
              (c.authorization ∙ ap (find_header (text "Authorization")) has))
          ∙ known)
        let_through (c.to_bytes max_wire_bytes ∙ ap read is_body ∙ read_whole)
        (ap (λ e. decode gunzip e wire)
            (c.content_encoding ∙ ap (find_header (text "Content-Encoding")) has)
          ∙ decode-small gunzip wire plain whole small)
    where
      read : List ℕ → Option (List ℕ)
      read bytes = if leb (length bytes) max_wire_bytes then some bytes else none

      read_whole : read wire ≡ some wire
      read_whole = ground arith

  -- Where a send may go and takes a batch whose payload is small enough, its write key is known, the
  -- limiter lets the request through, the payload normalizes and the database works, the send comes to
  -- delivered, and the answer has the numbers and the rejections of the batch. This is so where the
  -- server as modelled gives the answer, and HTTP and gzip carry the request.
  pub sent-delivered :
      (urgency : Urgency) (attempt : Attempt f) (w : World) (reserved : SenderState) (b : Batch)
      (wire : List ℕ) (source : Text) (normalized : Normalized)
      → Formats p x gunzip b (rfc3339_millis (p.civil attempt.now))
      → ((sent : Sender.Request)
          → attempt.reply sent
            ≡ replied (batch x gunzip sha256 settings (arrived sent) moment state).0)
      → reserve (unix_millis attempt.now) w.state ≡ some reserved
      → (taking p f config attempt urgency w).0 ≡ some b
      → p.compress (payload b (rfc3339_millis (p.civil attempt.now))) ≡ some wire
      → IsKey config.write_key
      → source_for sha256 settings config.write_key ≡ some source
      → (limit_of x gunzip sha256 settings source
          (arrived (request p f config attempt wire))
          moment
          state).0
        ≡ some allowed
      → length wire ≤ max_wire_bytes
      → length (as_bytes (payload b (rfc3339_millis (p.civil attempt.now))))
        ≤ max_decompressed_bytes
      → normalize x
          (as_bytes (payload b (rfc3339_millis (p.civil attempt.now))))
          moment.received_at
          settings.fragments
          settings.limits
        ≡ Outcome.ok normalized
      → moment.database_works ≡ true
      → ((send_next p f config urgency attempt w).0 ≡ ok (some delivered))
        × ((batch x gunzip sha256 settings
              (arrived (request p f config attempt wire))
              moment
              state).0
            ≡ (stored_as x gunzip sha256 settings moment state.rows normalized).0)
  unfolding of answer_of
  sent-delivered urgency attempt w reserved b wire source normalized formats serves goes takes
        compressed key known let_through fits small normal works =
      let sent = request p f config attempt wire in
      let stored =
        ap (λ r. r.0)
          (served-read wire sent _ source refl refl (formats.whole wire compressed) key known
            let_through fits small)
        ∙ ap (λ r. r.0)
            (normalized-stored x gunzip sha256 settings moment state.rows _ normalized normal
              works) in
      (
        send_next-outcome p f config attempt urgency w reserved b delivered goes takes (record {
          body = wire;
          sent = compressed;
          answer = ap (λ r. of (answer_of r).status) (serves sent ∙ ap replied stored);
        }),
        stored,
      )
