-- ===== src/Ingest/App/Stored.antt =====
-- Where `batch` of rust/crates/clickman-ingest/src/app.rs answers with a success: the way of the body
-- through the handler to the table.
use clickman.Base.{
  ℕ, ◌-◌, ◌==◌, ◌≡◌, refl, ap, ◌∙◌, true, inl, inr, ◌||◌, Option, none, some, List, length,
  Bool-cases, arith,
}
use clickman.Base.Text.{Text}
use clickman.Client.Outcome.{delivered, of}
use clickman.Protocol.Outcome.{Outcome, ok, err, panic}
use clickman.Protocol.Batch.{Rejection, Normalized, BatchError, malformed, Externals, normalize}
use clickman.Ingest.Body.{
  Decoded, body, BodyError, too_large, unsupported_encoding, Gunzip, decode, max_wire_bytes,
}
use clickman.Ingest.Limiter.{Decision, allowed, limited}
use clickman.Ingest.Database.{Row, insert}
use clickman.Ingest.Settings.{Settings}
use clickman.Ingest.App.{
  Request, stored, Response, AppState, Moment, bearer, store, after_normalize, after_decode,
  after_read, after_check, source_of, limit_of, handle, batch,
}

-- An answer that the client reads as delivered.
abbrev pub IsDelivered : Option Response → Type 0
IsDelivered none = ⊥
IsDelivered (some r) = of r.status ≡ delivered

abbrev pub accepted : ℕ → ℕ → List Rejection → Response
accepted inserted duplicates rejected = record {
  status = 202;
  retry_after = none;
  reply = stored inserted duplicates rejected;
}

module _ (x : Externals) (gunzip : List ℕ → Gunzip) (sha256 : List ℕ → List ℕ) (settings : Settings)
    (moment : Moment) (rows : List Row) where
  -- The answer and the table after the events of a batch are inserted.
  abbrev pub stored_as : Normalized → Option Response × List Row
  stored_as normalized =
      let (inserted, after) = insert normalized.events moment.received_at rows in
      (some (accepted inserted (length normalized.events - inserted) normalized.rejected), after)

  store-stored_as :
      (normalized : Normalized)
      → IsDelivered (store x gunzip sha256 settings normalized moment rows).0
      → store x gunzip sha256 settings normalized moment rows ≡ stored_as normalized
  unfolding store of
  store-stored_as normalized h =
      elim (Bool-cases (moment.database_works || length normalized.events == 0)) [
        | inl works ↦ rw works
        | inr fails ↦ absurd (ground (arith, rw fails at h))
      ]

  -- What the handler made of the bytes of a batch.
  pub record Normal (bytes : List ℕ) (result : Option Response × List Row) : Type 0 where
    pub normalized : Normalized
    pub is_normal :
        normalize x bytes moment.received_at settings.fragments settings.limits ≡ ok normalized
    pub result_is : result ≡ stored_as normalized

  normalized-Normal :
      (bytes : List ℕ) (outcome : Outcome BatchError Normalized)
      → normalize x bytes moment.received_at settings.fragments settings.limits ≡ outcome
      → IsDelivered (after_normalize x gunzip sha256 settings outcome moment rows).0
      → Normal bytes (after_normalize x gunzip sha256 settings outcome moment rows)
  unfolding after_normalize of
  normalized-Normal bytes (ok normalized) e h = record {
    normalized = normalized;
    is_normal = e;
    result_is = store-stored_as normalized h;
  }
  normalized-Normal bytes (err (malformed message)) e h = absurd (ground arith)
  normalized-Normal bytes panic e h = absurd (h)

  decoded-Normal :
      (decoded : Decoded)
      → IsDelivered (after_decode x gunzip sha256 settings decoded moment rows).0
      → (bytes : List ℕ) × (decoded ≡ body bytes)
        × Normal bytes (after_decode x gunzip sha256 settings decoded moment rows)
  unfolding after_decode of
  decoded-Normal (body bytes) h = (bytes, refl, normalized-Normal bytes _ refl h)
  decoded-Normal (Decoded.refused too_large) h = absurd (ground arith)
  decoded-Normal (Decoded.refused unsupported_encoding) h = absurd (ground arith)
  decoded-Normal (Decoded.refused (BodyError.malformed message)) h = absurd (ground arith)

  -- What a request with a stored batch went through: its body within the wire limit, decoded by its
  -- encoding, and made into a batch.
  abbrev pub Through : Option (List ℕ) → Option Text → Option Response × List Row → Type 0
  Through read encoding result =
      (wire : List ℕ) × (bytes : List ℕ) × (read ≡ some wire)
      × (decode gunzip encoding wire ≡ body bytes)
      × Normal bytes result

  read-Through :
      (read : Option (List ℕ)) (encoding : Option Text)
      → IsDelivered (after_read x gunzip sha256 settings read encoding moment rows).0
      → Through read encoding (after_read x gunzip sha256 settings read encoding moment rows)
  unfolding after_read of
  read-Through none encoding h = absurd (ground arith)
  read-Through (some wire) encoding h =
      let (bytes, e, n) = decoded-Normal _ h in (wire, bytes, refl, e, n)

  checked-Through :
      (decision : Option Decision) (request : Request)
      → IsDelivered (after_check x gunzip sha256 settings decision request moment rows).0
      → Through
          (request.to_bytes max_wire_bytes)
          request.content_encoding
          (after_check x gunzip sha256 settings decision request moment rows)
  unfolding after_check of
  checked-Through none request h = absurd (h)
  checked-Through (some (limited seconds)) request h = absurd (ground arith)
  checked-Through (some allowed) request h = read-Through _ request.content_encoding h

  -- What is left of a request whose body is read and decoded.
  checked-read :
      (request : Request) (wire bytes : List ℕ)
      → request.to_bytes max_wire_bytes ≡ some wire
      → decode gunzip request.content_encoding wire ≡ body bytes
      → after_check x gunzip sha256 settings (some allowed) request moment rows
        ≡ after_normalize x gunzip sha256 settings
            (normalize x bytes moment.received_at settings.fragments settings.limits)
            moment
            rows
  unfolding after_check after_read after_decode
  checked-read request wire bytes read decoded =
      ap (λ read. after_read x gunzip sha256 settings read request.content_encoding moment rows)
        read
      ∙ ap (λ decoded. after_decode x gunzip sha256 settings decoded moment rows) decoded

  pub normalized-stored :
      (bytes : List ℕ) (normalized : Normalized)
      → normalize x bytes moment.received_at settings.fragments settings.limits ≡ ok normalized
      → moment.database_works ≡ true
      → after_normalize x gunzip sha256 settings
          (normalize x bytes moment.received_at settings.fragments settings.limits)
          moment
          rows
        ≡ stored_as normalized
  unfolding after_normalize store
  normalized-stored bytes normalized normal works =
      ap (λ outcome. after_normalize x gunzip sha256 settings outcome moment rows) normal
      ∙ rw works refl

module _ (x : Externals) (gunzip : List ℕ → Gunzip) (sha256 : List ℕ → List ℕ) (settings : Settings)
    (request : Request) (moment : Moment) (state : AppState) where
  handle-Through :
      (source : Option Text)
      → IsDelivered (handle x gunzip sha256 settings source request moment state).0
      → Through x gunzip sha256 settings moment state.rows
          (request.to_bytes max_wire_bytes)
          request.content_encoding
          (
            (handle x gunzip sha256 settings source request moment state).0,
            (handle x gunzip sha256 settings source request moment state).1.rows,
          )
  unfolding of
  handle-Through none h = absurd (ground arith)
  handle-Through (some source) h =
      checked-Through x gunzip sha256 settings moment state.rows _ request h

  -- An answer that the client reads as delivered is given only to a request whose body is read within
  -- the limit, decodes by its encoding and is a batch; and the answer and the table are those after
  -- the insertion of its events.
  pub batch-Through :
      IsDelivered (batch x gunzip sha256 settings request moment state).0
      → Through x gunzip sha256 settings moment state.rows
          (request.to_bytes max_wire_bytes)
          request.content_encoding
          (
            (batch x gunzip sha256 settings request moment state).0,
            (batch x gunzip sha256 settings request moment state).1.rows,
          )
  unfolding batch
  batch-Through h = handle-Through (source_of x gunzip sha256 settings (bearer request)) h

  -- An answer and the table after it, with the buckets after the check of a source.
  abbrev pub with_limit : Text → Option Response × List Row → Option Response × AppState
  with_limit source (answer, rows) = (
    answer,
    record {
      buckets = (limit_of x gunzip sha256 settings source request moment state).1;
      rows = rows;
    },
  )

  -- A request whose key is known, that the limiter lets through and whose body is read and decoded, is
  -- normalized.
  pub batch-read :
      (source : Text) (wire bytes : List ℕ)
      → source_of x gunzip sha256 settings (bearer request) ≡ some source
      → (limit_of x gunzip sha256 settings source request moment state).0 ≡ some allowed
      → request.to_bytes max_wire_bytes ≡ some wire
      → decode gunzip request.content_encoding wire ≡ body bytes
      → batch x gunzip sha256 settings request moment state
        ≡ with_limit source (
            after_normalize x gunzip sha256 settings
              (normalize x bytes moment.received_at settings.fragments settings.limits)
              moment
              state.rows)
  unfolding batch
  batch-read source wire bytes known let_through read decoded =
      ap (λ source. handle x gunzip sha256 settings source request moment state) known
      ∙ ap
          (λ decision.
            with_limit source
              (after_check x gunzip sha256 settings decision request moment state.rows))
          let_through
      ∙ ap (with_limit source)
          (checked-read x gunzip sha256 settings moment state.rows request wire bytes read decoded)
