-- ===== src/Client/Sender/Drain.antt =====
-- The loop of `drain` against a server that takes everything: since `remove` leaves the newest event
-- of a batch in the queue, the loop never finds the queue empty.
use clickman.Base.{
  ℕ, zero, suc, ◌≤◌, ◌<◌, ◌≡◌, refl, ap, ◌∙◌, ◌≢◌, inl, inr, Bool, true, false, none, some, List,
  [], ◌∷◌, All, keep, drop, length, arith, Bool-cases,
}
use clickman.Base.Int.{ltb_ℤ, saturating_sub}
use clickman.Base.Text.{Text}
use clickman.Client.Error.{ok}
use clickman.Client.Clock.{unix_millis, millis, rfc3339_millis}
use clickman.Client.Config.{Config}
use clickman.Client.Outcome.{delivered, of}
use clickman.Client.Backoff.Float.{Float64}
use clickman.Client.Platform.{Platform}
use clickman.Client.Store.{Row, Database}
use clickman.Client.Queue.{Batch, payload, forced, purge, last, take_batch, remove}
use clickman.Client.Queue.Order.{IsOrdered, take_batch-IsOrdered, remove-IsOrdered}
use clickman.Client.Queue.Take.{
  IsPrefix, count, count-le-length, take_batch_oldest, take_batch_forced,
}
use clickman.Client.Queue.Remove.{remove_keeps_newest}
use clickman.Client.Sender.{
  clear, default_state, Attempt, World, Request, answer_of, deliver, send_taken, send_next,
  in_flight, SenderState, drain, url, headers,
}

last_cons : (r row : Row) (rows : List Row) → last rows ≡ some row → last (r ∷ rows) ≡ some row
unfolding last
last_cons r row [] h = absurd (cc)
last_cons r row (r' ∷ rows) h = h

last-keep :
    (p : Row → Bool) (rows : List Row) (row : Row)
    → last rows ≡ some row
    → p row ≡ true
    → last (keep p rows) ≡ some row
unfolding last
last-keep p [] row h k = absurd (cc)
last-keep p (r ∷ []) row h k = ground arith
last-keep p (r ∷ r' ∷ rows) row h k = elim (Bool-cases (p r)) [
  | inl e ↦ rw e (last_cons r row (keep p (r' ∷ rows)) (last-keep p (r' ∷ rows) row h k))
  | inr e ↦ rw e (last-keep p (r' ∷ rows) row h k)
]

last-drop : (k : ℕ) (rows : List Row) → k < length rows → last (drop k rows) ≡ last rows
unfolding last
last-drop k [] h = absurd (omega arith)
last-drop zero (r ∷ rows) h = refl
last-drop (suc k) (r ∷ []) h = absurd (omega arith)
last-drop (suc k) (r ∷ r' ∷ rows) h = last-drop k (r' ∷ rows) (omega arith)

last-remove :
    (n : ℕ) (kept : Database) (batch : Batch) (row newest : Row)
    → IsOrdered kept
    → n ≤ length kept.events
    → IsPrefix kept.events batch n row
    → last kept.events ≡ some newest
    → last (remove batch kept).events ≡ some newest
unfolding last
last-remove zero kept batch row newest o l prefix is_newest = absurd (cc (prefix.is_last))
last-remove (suc k) kept batch row newest o l prefix is_newest =
    ap last (remove_keeps_newest kept batch k row o l prefix)
    ∙ last-drop k kept.events l
    ∙ is_newest

module _ (p : Platform) (f : Float64) (config : Config)
    (compresses : (s : Text) → (body : List ℕ) × (p.compress s ≡ some body))
    (pos_events : 0 < config.max_batch_events) (newest : Row) where
  -- An attempt to which the server answers with success, while nothing else happens to the store,
  -- and at which the newest event is not past its age.
  pub record Serves (attempt : Attempt f) : Type 0 where
    pub success : (request : Request) → of (answer_of (attempt.reply request)).status ≡ delivered
    pub quiet : (db : Database) → attempt.meanwhile db ≡ db
    pub fresh :
        ltb_ℤ newest.created_at (saturating_sub (unix_millis attempt.now) (millis config.max_age))
        ≡ false

  -- The store before and after each round.
  pub record Holds (db : Database) : Type 0 where
    pub ordered : IsOrdered db
    pub is_newest : last db.events ≡ some newest

  deliver-Serves :
      (batch : Batch) (attempt : Attempt f) (w : World)
      → Serves attempt
      → deliver p f config batch attempt w ≡ (
        ok (some delivered),
        record { database = remove batch w.database; state = default_state },
      )
  unfolding deliver
  deliver-Serves batch attempt w s =
      let (body, e) = compresses (payload batch (rfc3339_millis (p.civil attempt.now))) in
      ground (
        arith,
        e,
        s.success (record { url = url config; headers = headers config; body = body }),
        s.quiet w.database,
      )

  nonempty : (rows : List Row) → last rows ≡ some newest → rows ≢ []
  unfolding last
  nonempty [] h e = cc
  nonempty (r ∷ rows) h e = cc

  -- The purge before a round leaves the newest event.
  taking_newest :
      (attempt : Attempt f) (db : Database)
      → Serves attempt
      → Holds db
      → last (take_batch config (unix_millis attempt.now) forced db).1.events ≡ some newest
  unfolding take_batch purge
  taking_newest attempt db s h = last-keep _ db.events newest h.is_newest (rw s.fresh)

  -- What `remove` leaves of the queue, whatever batch was taken of it.
  remove_newest :
      (attempt : Attempt f) (db : Database) (batch : Batch)
      → (take_batch config (unix_millis attempt.now) forced db).0 ≡ some batch
      → IsOrdered db
      → last (take_batch config (unix_millis attempt.now) forced db).1.events ≡ some newest
      → last (remove batch (take_batch config (unix_millis attempt.now) forced db).1).events
        ≡ some newest
  remove_newest attempt db batch found o is_newest =
      let now = unix_millis attempt.now in
      let kept = (take_batch config now forced db).1 in
      let (row, prefix) = (take_batch_oldest config now forced db batch found).2 in
      last-remove (count config now forced kept) kept batch row newest
        (take_batch-IsOrdered config now forced db o) (count-le-length config now forced kept)
        prefix is_newest

  -- A round from a state with nothing in flight and no failure remembered.
  abbrev pub ready : Database → World
  ready db = record { database = db; state = default_state }

  send_next-Serves :
      (attempt : Attempt f) (db : Database) (batch : Batch)
      → Serves attempt
      → (take_batch config (unix_millis attempt.now) forced db).0 ≡ some batch
      → send_next p f config forced attempt (ready db) ≡ (
        ok (some delivered),
        ready (remove batch (take_batch config (unix_millis attempt.now) forced db).1),
      )
  unfolding send_next
  send_next-Serves attempt db batch s found =
      let taking = take_batch config (unix_millis attempt.now) forced db in
      let state : SenderState = record { flight = in_flight; backoff = clear } in
      ap
        (λ taken.
          send_taken p f config taken attempt (record { database = taking.1; state = state }))
        found
      ∙ deliver-Serves batch attempt (record { database = taking.1; state = state }) s

  round :
      (attempt : Attempt f) (db : Database)
      → Serves attempt
      → Holds db
      → (db' : Database) × Holds db'
        × (send_next p f config forced attempt (ready db) ≡ (ok (some delivered), ready db'))
  round attempt db s h =
      let now = unix_millis attempt.now in
      let kept_newest = taking_newest attempt db s h in
      let (batch, found) = take_batch_forced config now pos_events db (nonempty _ kept_newest) in
      (
        remove batch (take_batch config now forced db).1,
        record {
          ordered = remove-IsOrdered batch _ (take_batch-IsOrdered config now forced db h.ordered);
          is_newest = remove_newest attempt db batch found h.ordered kept_newest;
        },
        send_next-Serves attempt db batch s found,
      )

  -- Where the server takes every batch, nothing else changes the store, compressing never fails, and
  -- the newest event is not past its age, a flush of a queue in order with an event in it does not end
  -- within any number of attempts, and its newest event is still in the queue after them.
  pub drain_never_ends :
      (attempts : List (Attempt f)) (db : Database)
      → All Serves attempts
      → Holds db
      → ((drain p f config forced attempts (ready db)).0 ≡ none)
        × (last (drain p f config forced attempts (ready db)).1.database.events ≡ some newest)
  unfolding drain
  drain_never_ends [] db s h = (refl, h.is_newest)
  drain_never_ends (attempt ∷ attempts) db s h =
      let (db', h', e) = round attempt db s.0 h in rw e (drain_never_ends attempts db' s.1 h')
