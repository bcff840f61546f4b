-- ===== src/Client/Refine/Sends.antt =====
-- A send as changes of the queue, where what the other calls do to the store meanwhile is that too.
use clickman.Base.{
  inl, inr, Option, none, some, List, [], ◌∷◌, ◌≡◌, refl, All, Option-cases, Bool-cases,
}
use clickman.Base.Int.{ℤ}
use clickman.Client.Error.{Result-cases}
use clickman.Client.Clock.{unix_millis, rfc3339_millis}
use clickman.Client.Config.{Config}
use clickman.Client.Outcome.{Outcome, delivered, refused, retry, of}
use clickman.Client.Backoff.Float.{Float64}
use clickman.Client.Platform.{Platform}
use clickman.Client.Store.{Database}
use clickman.Client.Queue.{Batch, Urgency, purge, take_batch, remove}
use clickman.Client.Queue.Order.{IsOrdered, remove-IsOrdered, take_batch-IsOrdered}
use clickman.Client.Sender.{
  Attempt, World, Answer, reserve, post, settle_as, deliver, send_taken, send_next, drain, goes_on,
}
use clickman.Client.Refine.{
  waiting_of, expired, answered, Answered, here, one, Refines, Refines-trans,
}

module _ (p : Platform) (f : Float64) (config : Config) (SendsAt : ℤ → Type 0) where
  -- The send is at one of the instants, and what the others do meanwhile are such changes.
  pub record Faithful (attempt : Attempt f) : Type 0 where
    pub timed : SendsAt (unix_millis attempt.now)
    pub at : (db : Database) → IsOrdered db → Refines p f config SendsAt db (attempt.meanwhile db)

  settle_as-Refines :
      (outcome : Outcome) (batch : Batch) (answer : Answer) (attempt : Attempt f) (w : World)
      → (outcome ≡ delivered → Answered p f config SendsAt batch)
      → (outcome ≡ refused → Answered p f config SendsAt batch)
      → IsOrdered w.database
      → Refines p f config SendsAt w.database
          (settle_as p f config outcome batch answer attempt w).database
  unfolding settle_as remove
  settle_as-Refines delivered batch answer attempt w taken left o = (
    one p f config SendsAt _ _ (answered batch (taken refl) (waiting_of w.database)),
    remove-IsOrdered batch w.database o,
  )
  settle_as-Refines refused batch answer attempt w taken left o = (
    one p f config SendsAt _ _ (answered batch (left refl) (waiting_of w.database)),
    remove-IsOrdered batch w.database o,
  )
  settle_as-Refines retry batch answer attempt w taken left o = (here, o)

  deliver-Refines :
      (batch : Batch) (urgency : Urgency) (from : Database) (attempt : Attempt f) (w : World)
      → (take_batch config (unix_millis attempt.now) urgency from).0 ≡ some batch
      → Faithful attempt
      → IsOrdered w.database
      → Refines p f config SendsAt w.database (deliver p f config batch attempt w).1.database
  unfolding deliver
  deliver-Refines batch urgency from attempt w taken calm o =
      let sent_at = rfc3339_millis (p.civil attempt.now) in
      elim (Result-cases (post p f config batch sent_at attempt)) [
        | inl (answer, e) ↦
            rw (e, deliver)
              (Refines-trans p f config SendsAt w.database (attempt.meanwhile w.database) _
                (calm.at w.database o)
                (settle_as-Refines (of answer.status) batch answer attempt
                  (record w { database = attempt.meanwhile w.database })
                  (λ s. record {
                    now = unix_millis attempt.now;
                    sent = calm.timed;
                    urgency = urgency;
                    from = from;
                    taken = taken;
                    sent_at = sent_at;
                    attempt = attempt;
                    answer = answer;
                    posted = e;
                    settled = inl s;
                  })
                  (λ s. record {
                    now = unix_millis attempt.now;
                    sent = calm.timed;
                    urgency = urgency;
                    from = from;
                    taken = taken;
                    sent_at = sent_at;
                    attempt = attempt;
                    answer = answer;
                    posted = e;
                    settled = inr s;
                  })))
        | inr (error, e) ↦ rw (e, deliver) (here, o)
      ]

  send_taken-Refines :
      (taken : Option Batch) (urgency : Urgency) (from : Database) (attempt : Attempt f) (w : World)
      → (take_batch config (unix_millis attempt.now) urgency from).0 ≡ taken
      → Faithful attempt
      → IsOrdered w.database
      → Refines p f config SendsAt w.database (send_taken p f config taken attempt w).1.database
  unfolding send_taken
  send_taken-Refines none urgency from attempt w e calm o = (here, o)
  send_taken-Refines (some batch) urgency from attempt w e calm o =
      deliver-Refines batch urgency from attempt w e calm o

  send_next-Refines :
      (urgency : Urgency) (attempt : Attempt f) (w : World)
      → Faithful attempt
      → IsOrdered w.database
      → Refines p f config SendsAt w.database (send_next p f config urgency attempt w).1.database
  unfolding send_next take_batch purge
  send_next-Refines urgency attempt w calm o =
      elim (Option-cases (reserve (unix_millis attempt.now) w.state)) [
        | inl e ↦ rw (e, send_next) (here, o)
        | inr (state, e) ↦
            rw (e, send_next)
              (Refines-trans p f config SendsAt w.database
                (take_batch config (unix_millis attempt.now) urgency w.database).1 _
                (
                  one p f config SendsAt _ _ (expired _ calm.timed (waiting_of w.database)),
                  take_batch-IsOrdered config (unix_millis attempt.now) urgency w.database o,
                )
                (send_taken-Refines _ urgency w.database attempt _ refl calm))
      ]

  pub drain-Refines :
      (urgency : Urgency) (attempts : List (Attempt f)) (w : World)
      → All Faithful attempts
      → IsOrdered w.database
      → Refines p f config SendsAt w.database (drain p f config urgency attempts w).1.database
  unfolding drain
  drain-Refines urgency [] w calm o = (here, o)
  drain-Refines urgency (attempt ∷ attempts) w calm o =
      let first = send_next-Refines urgency attempt w calm.0 o in
      elim (Bool-cases (goes_on p f config (send_next p f config urgency attempt w).0)) [
        | inl e ↦ rw e (
            Refines-trans p f config SendsAt w.database _ _ first
              (drain-Refines urgency attempts _ calm.1))
        | inr e ↦ rw e first
      ]
