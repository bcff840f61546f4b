-- ===== src/Ingest/App/Answers.antt =====
-- What each answer of the handler promises, on both sides of the wire: `of` is how the client's
-- rust/crates/clickman/src/outcome.rs reads the status.
use clickman.Base.{
  ℕ, ◌+◌, ◌≤◌, ◌==◌, ◌≡◌, refl, ap, ◌⊎◌, inl, inr, ◌||◌, Option, none, some, List, length, max,
  Bool-cases, arith,
}
use clickman.Base.Int.{ℤ}
use clickman.Base.Text.{Text, text}
use clickman.Client.Outcome.{delivered, refused, retry, of}
use clickman.Protocol.Outcome.{Outcome, ok, err, panic}
use clickman.Protocol.Batch.{Normalized, BatchError, malformed, Externals, normalize}
use clickman.Ingest.Body.{Decoded, body, BodyError, too_large, unsupported_encoding, Gunzip}
use clickman.Ingest.Limiter.{Decision, allowed, limited}
use clickman.Ingest.Database.{Row, insert}
use clickman.Ingest.Database.Laws.{Distinct, insert-Distinct, insert-le}
use clickman.Ingest.Settings.{Settings}
use clickman.Ingest.App.{
  Request, stored, Response, AppState, Moment, failing, bearer, store, after_normalize, as_secs,
  after_decode, after_read, after_check, source_of, limit_of, handle, batch,
}

-- The client is told when to come back, unless its key is unknown.
abbrev pub Waits : Response → Type 0
Waits r = (r.status ≡ 401) ⊎ ((n : ℕ) × (r.retry_after ≡ some n) × (1 ≤ n))

module _ (x : Externals) (settings : Settings) (received_at : ℤ) where
  -- What was read normalizes to events and rejections; the answer has the rejections, the number of
  -- rows that are new, and as duplicates the other events; and the table has the events inserted.
  abbrev pub Counted : List Row → List Row → Response → Type 0
  Counted rows after r =
      (bytes : List ℕ) × (normalized : Normalized) × (normalize x bytes received_at
          settings.fragments settings.limits
        ≡ ok normalized)
      × (inserted : ℕ) × (duplicates : ℕ) × (r.reply
          ≡ stored inserted duplicates normalized.rejected)
      × (insert normalized.events received_at rows ≡ (inserted, after))
      × (inserted + duplicates ≡ length normalized.events)

  abbrev pub Promises : Option Response → List Row → List Row → Type 0
  Promises none rows after = after ≡ rows
  Promises (some r) rows after =
      ((of r.status ≡ delivered) × Counted rows after r)
      ⊎ ((of r.status ≡ refused) × (after ≡ rows))
      ⊎ ((of r.status ≡ retry) × (after ≡ rows) × Waits r)

  -- The same with the table's ids.
  abbrev pub Sound : Option Response × List Row → List Row → Type 0
  Sound result rows = Promises result.0 rows result.1 × Distinct result.1

module _ (x : Externals) (gunzip : List ℕ → Gunzip) (sha256 : List ℕ → List ℕ) (settings : Settings)
    (moment : Moment) (rows : List Row) (d : Distinct rows) where
  abbrev Answered : Option Response × List Row → Type 0
  Answered result = Sound x settings moment.received_at result rows

  store-Sound :
      (bytes : List ℕ) (normalized : Normalized)
      → normalize x bytes moment.received_at settings.fragments settings.limits ≡ ok normalized
      → Answered (store x gunzip sha256 settings normalized moment rows)
  unfolding store of
  store-Sound bytes normalized e =
      elim (Bool-cases (moment.database_works || length normalized.events == 0)) [
        | inl works ↦ rw works (
          inl (
            refl,
            (
              bytes,
              normalized,
              e,
              _,
              _,
              refl,
              refl,
              omega (arith, insert-le normalized.events moment.received_at rows),
            ),
          ),
          insert-Distinct normalized.events moment.received_at rows d,
        )
        | inr fails ↦ rw fails (inr (inr (refl, refl, inr (5, refl, omega arith))), d)
      ]

  normalized-Sound :
      (bytes : List ℕ) (outcome : Outcome BatchError Normalized)
      → normalize x bytes moment.received_at settings.fragments settings.limits ≡ outcome
      → Answered (after_normalize x gunzip sha256 settings outcome moment rows)
  unfolding after_normalize of
  normalized-Sound bytes (ok normalized) e = store-Sound bytes normalized e
  normalized-Sound bytes (err (malformed message)) e = (inr (inl (refl, refl)), d)
  normalized-Sound bytes panic e = (refl, d)

  decoded-Sound :
      (decoded : Decoded) → Answered (after_decode x gunzip sha256 settings decoded moment rows)
  unfolding after_decode of
  decoded-Sound (body bytes) = normalized-Sound bytes _ refl
  decoded-Sound (Decoded.refused too_large) = (inr (inl (refl, refl)), d)
  decoded-Sound (Decoded.refused unsupported_encoding) = (inr (inl (refl, refl)), d)
  decoded-Sound (Decoded.refused (BodyError.malformed message)) = (inr (inl (refl, refl)), d)

  read-Sound :
      (read : Option (List ℕ)) (encoding : Option Text)
      → Answered (after_read x gunzip sha256 settings read encoding moment rows)
  unfolding after_read of
  read-Sound none encoding = (inr (inl (refl, refl)), d)
  read-Sound (some bytes) encoding = decoded-Sound _

  pub checked-Sound :
      (decision : Option Decision) (request : Request)
      → Answered (after_check x gunzip sha256 settings decision request moment rows)
  unfolding after_check of
  checked-Sound none request = (refl, d)
  checked-Sound (some (limited duration)) request =
      (inr (inr (refl, refl, inr (max (as_secs duration) 1, refl, omega arith))), d)
  checked-Sound (some allowed) request = read-Sound _ request.content_encoding

module _ (x : Externals) (gunzip : List ℕ → Gunzip) (sha256 : List ℕ → List ℕ)
    (settings : Settings) where
  -- Where the table has no id twice, it has none twice after a request, and the answer says what the
  -- request came to, as the client reads its status. Delivered: some bytes normalize to events and
  -- rejections, the table is as it was with these events inserted, and the answer has the rejections
  -- and the numbers of new events and of duplicates, which add up to the events. Refused: the table is
  -- as it was. To be sent again: the table is as it was, and the client is told to wait for at least a
  -- second, but for an unknown key. A panic leaves the table as it was.
  pub batch_answers :
      (request : Request) (moment : Moment) (state : AppState)
      → Distinct state.rows
      → Promises x settings moment.received_at
          (batch x gunzip sha256 settings request moment state).0
          state.rows
          (batch x gunzip sha256 settings request moment state).1.rows
        × Distinct (batch x gunzip sha256 settings request moment state).1.rows
  unfolding batch of
  batch_answers request moment state d = go (source_of x gunzip sha256 settings (bearer request))
    where
      go :
          (source : Option Text)
          → Promises x settings moment.received_at
              (handle x gunzip sha256 settings source request moment state).0
              state.rows
              (handle x gunzip sha256 settings source request moment state).1.rows
            × Distinct (handle x gunzip sha256 settings source request moment state).1.rows
      go none = (inr (inr (refl, refl, inl refl)), d)
      go (some source) =
          checked-Sound x gunzip sha256 settings moment state.rows d
            (limit_of x gunzip sha256 settings source request moment state).0 request

  -- A request whose key is unknown changes nothing, the rate limiter included.
  batch_unknown :
      (request : Request) (moment : Moment) (state : AppState)
      → source_of x gunzip sha256 settings (bearer request) ≡ none
      → batch x gunzip sha256 settings request moment state
        ≡ (some (failing 401 (text "invalid_write_key")), state)
  unfolding batch
  batch_unknown request moment state h =
      ap (λ source. handle x gunzip sha256 settings source request moment state) h
