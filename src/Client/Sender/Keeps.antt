-- ===== src/Client/Sender/Keeps.antt =====
-- When events leave the queue: at-least-once delivery as the sender sees it.
use clickman.Base.{
  ℕ, ◌≡◌, refl, ap, subst, ◌⊎◌, inl, inr, ◌∙◌, Bool, true, false, Option, none, some, List, [], ◌∷◌,
  keep, not, ltb, leb, arith, Option-cases,
}
use clickman.Base.Int.{ℤ, ltb_ℤ, leb_ℤ, saturating_sub}
use clickman.Client.Error.{Result, ok}
use clickman.Client.Clock.{unix_millis, millis, rfc3339_millis}
use clickman.Client.Config.{Config}
use clickman.Client.Outcome.{Outcome, delivered, refused, of}
use clickman.Client.Backoff.Float.{Float64}
use clickman.Client.Platform.{Platform}
use clickman.Client.Store.{Row, Database}
use clickman.Client.Queue.{Batch, Urgency, payload, delete, purge, take_batch, remove}
use clickman.Client.Sender.{
  idle, clear, SenderState, Attempt, World, Answer, Request, reserve, answer_of, url, headers,
  deliver, send_taken, send_next,
}

keep-fresh :
    (cutoff : ℤ) (rows : List Row)
    → keep (λ row. not (ltb_ℤ row.created_at cutoff)) rows
      ≡ keep (λ row. leb_ℤ cutoff row.created_at) rows
keep-fresh cutoff [] = refl
keep-fresh cutoff (row ∷ rows) =
    let same : not (ltb_ℤ row.created_at cutoff) ≡ leb_ℤ cutoff row.created_at = ground arith in
    rw (same, keep-fresh cutoff rows) refl

-- What the purge leaves are the events from the cutoff on.
purge-keep :
    (cutoff : ℤ) (db : Database)
    → purge cutoff db ≡ record db { events = keep (λ row. leb_ℤ cutoff row.created_at) db.events }
unfolding purge delete
purge-keep cutoff db = ap (λ rows. record db { events = rows }) (keep-fresh cutoff db.events)

keep-above :
    (n : ℕ) (rows : List Row)
    → keep (λ row. not (ltb row.seq n)) rows ≡ keep (λ row. leb n row.seq) rows
keep-above n [] = refl
keep-above n (row ∷ rows) =
    let same : not (ltb row.seq n) ≡ leb n row.seq = ground arith in
    rw (same, keep-above n rows) refl

-- What `remove` leaves are the events from the last number of the batch on.
pub remove-keep :
    (batch : Batch) (db : Database)
    → remove batch db ≡ record db { events = keep (λ row. leb batch.last_seq row.seq) db.events }
unfolding remove delete
remove-keep batch db =
    ap (λ rows. record db { events = rows }) (keep-above batch.last_seq db.events)

-- The two outcomes after which a batch leaves the queue.
abbrev pub leaves : Result (Option Outcome) → Bool
leaves (ok (some delivered)) = true
leaves (ok (some refused)) = true
leaves _ = false

module _ (p : Platform) (f : Float64) (config : Config) (attempt : Attempt f) where
  -- The request that carries a batch whose payload compresses to `body`.
  abbrev pub request : List ℕ → Request
  request body = record { url = url config; headers = headers config; body = body }

  abbrev pub answered : List ℕ → Answer
  answered body = answer_of (attempt.reply (request body))

  -- The batch was sent, and the server answered that it has it or never will.
  pub record Left (batch : Batch) (db : Database) (w' : World) : Type 0 where
    pub body : List ℕ
    pub sent : p.compress (payload batch (rfc3339_millis (p.civil attempt.now))) ≡ some body
    pub answer : (of (answered body).status ≡ delivered) ⊎ (of (answered body).status ≡ refused)
    pub removed : w'.database ≡ remove batch (attempt.meanwhile db)
    pub cleared : w'.state ≡ record { flight = idle; backoff = clear }

  deliver-Left :
      (batch : Batch) (w : World)
      → leaves (deliver p f config batch attempt w).0 ≡ true
      → Left batch w.database (deliver p f config batch attempt w).1
  unfolding deliver
  deliver-Left batch w h =
      elim (Option-cases (p.compress (payload batch (rfc3339_millis (p.civil attempt.now))))) [
        | inl e ↦ absurd (ground arith)
        | inr (body, e) ↦ record {
          body = body;
          sent = e;
          answer = ground arith;
          removed = ground arith;
          cleared = ground arith;
        }
      ]

  -- The request that was made, and what its answer was read as.
  pub record Posted (batch : Batch) (outcome : Outcome) : Type 0 where
    pub body : List ℕ
    pub sent : p.compress (payload batch (rfc3339_millis (p.civil attempt.now))) ≡ some body
    pub answer : of (answered body).status ≡ outcome

  deliver-Posted :
      (batch : Batch) (w : World) (outcome : Outcome)
      → (deliver p f config batch attempt w).0 ≡ ok (some outcome)
      → Posted batch outcome
  unfolding deliver
  deliver-Posted batch w outcome h =
      elim (Option-cases (p.compress (payload batch (rfc3339_millis (p.civil attempt.now))))) [
        | inl e ↦ absurd (ground arith)
        | inr (body, e) ↦ record { body = body; sent = e; answer = ground arith }
      ]

  deliver-outcome :
      (batch : Batch) (w : World) (outcome : Outcome)
      → Posted batch outcome
      → (deliver p f config batch attempt w).0 ≡ ok (some outcome)
  unfolding deliver
  deliver-outcome batch w outcome posted =
      rw (posted.sent, deliver) (ap (λ o. ok (some o)) posted.answer)

  deliver_stays :
      (batch : Batch) (w : World)
      → leaves (deliver p f config batch attempt w).0 ≡ false
      → attempt.meanwhile w.database ≡ w.database
      → (deliver p f config batch attempt w).1.database ≡ w.database
  unfolding deliver
  deliver_stays batch w h quiet = ground arith

  send_taken-Left :
      (taken : Option Batch) (w : World)
      → leaves (send_taken p f config taken attempt w).0 ≡ true
      → (batch : Batch) × (taken ≡ some batch)
        × Left batch w.database (send_taken p f config taken attempt w).1
  unfolding send_taken
  send_taken-Left none w h = absurd (cc)
  send_taken-Left (some batch) w h = (batch, refl, deliver-Left batch w h)

  send_taken-Posted :
      (taken : Option Batch) (w : World) (batch : Batch) (outcome : Outcome)
      → taken ≡ some batch
      → (send_taken p f config taken attempt w).0 ≡ ok (some outcome)
      → Posted batch outcome
  unfolding send_taken
  send_taken-Posted none w batch outcome e h = absurd (ground arith)
  send_taken-Posted (some b) w batch outcome e h =
      let same : b ≡ batch = ground arith in
      subst (λ b. Posted b outcome) same (deliver-Posted b w outcome h)

  send_taken_stays :
      (taken : Option Batch) (w : World)
      → leaves (send_taken p f config taken attempt w).0 ≡ false
      → attempt.meanwhile w.database ≡ w.database
      → (send_taken p f config taken attempt w).1.database ≡ w.database
  unfolding send_taken
  send_taken_stays none w h quiet = refl
  send_taken_stays (some batch) w h quiet = deliver_stays batch w h quiet

  module _ (urgency : Urgency) (w : World) where
    -- The oldest events that are due, and the store without those past their age.
    abbrev pub taking : Option Batch × Database
    taking = take_batch config (unix_millis attempt.now) urgency w.database

    -- A send that comes to delivered or refused had taken a batch and posted it, and the server
    -- had answered it with a success or a refusal; it leaves the store as `remove` leaves it after
    -- what the other calls did meanwhile, with no failure remembered and nothing in flight.
    pub send_next-Left :
        leaves (send_next p f config urgency attempt w).0 ≡ true
        → (batch : Batch) × (taking.0 ≡ some batch)
          × Left batch taking.1 (send_next p f config urgency attempt w).1
    unfolding send_next
    send_next-Left h = elim (Option-cases (reserve (unix_millis attempt.now) w.state)) [
      | inl e ↦ absurd (ground arith)
      | inr (state, e) ↦
          rw (e, send_next)
            (send_taken-Left taking.0 (record { database = taking.1; state = state })
              (rw (e, send_next) at h))
    ]

    -- A send that comes to an outcome has made the request of the batch that it took.
    pub send_next-Posted :
        (batch : Batch) (outcome : Outcome)
        → taking.0 ≡ some batch
        → (send_next p f config urgency attempt w).0 ≡ ok (some outcome)
        → Posted batch outcome
    unfolding send_next
    send_next-Posted batch outcome e h =
        elim (Option-cases (reserve (unix_millis attempt.now) w.state)) [
          | inl refused' ↦ absurd (ground arith)
          | inr (state, reserved) ↦
              send_taken-Posted taking.0 _ batch outcome e (rw (reserved, send_next) at h)
        ]

    -- A send that may go and takes a batch comes to what the answer to its request is read as.
    pub send_next-outcome :
        (state : SenderState) (batch : Batch) (outcome : Outcome)
        → reserve (unix_millis attempt.now) w.state ≡ some state
        → taking.0 ≡ some batch
        → Posted batch outcome
        → (send_next p f config urgency attempt w).0 ≡ ok (some outcome)
    unfolding send_next send_taken
    send_next-outcome state batch outcome reserved takes posted =
        rw (reserved, send_next)
          (ap
              (λ taken.
                (send_taken p f config taken attempt
                  (record { database = taking.1; state = state })).0)
              takes
            ∙ deliver-outcome batch (record { database = taking.1; state = state }) outcome posted)

    -- After a send that comes to anything but delivered or refused, a retry, an error or nothing
    -- to send, the queue is as it was or holds just those of its events that are not past their age,
    -- in their order, where no other call changed the store meanwhile.
    pub send_next_stays :
        leaves (send_next p f config urgency attempt w).0 ≡ false
        → attempt.meanwhile taking.1 ≡ taking.1
        → ((send_next p f config urgency attempt w).1.database ≡ w.database)
          ⊎ ((send_next p f config urgency attempt w).1.database ≡ record w.database {
            events =
                keep
                  (λ row.
                    leb_ℤ
                      (saturating_sub (unix_millis attempt.now) (millis config.max_age))
                      row.created_at)
                  w.database.events;
          })
    unfolding send_next
    send_next_stays h quiet = elim (Option-cases (reserve (unix_millis attempt.now) w.state)) [
      | inl e ↦ inl (rw (e, send_next))
      | inr (state, e) ↦ inr (
          rw (e, send_next)
            (send_taken_stays taking.0 (record { database = taking.1; state = state })
                (rw (e, send_next) at h) quiet
              ∙ unfold take_batch in
                purge-keep (saturating_sub (unix_millis attempt.now) (millis config.max_age))
                  w.database))
    ]
