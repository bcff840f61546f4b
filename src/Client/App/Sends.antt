-- ===== src/Client/App/Sends.antt =====
-- A send keeps the invariant, where what other calls do to the store meanwhile does.
use clickman.Base.{inl, inr, Option, none, some, List, [], ◌∷◌, All, Option-cases, Bool-cases}
use clickman.Client.Error.{Result-cases}
use clickman.Client.Clock.{unix_millis, rfc3339_millis}
use clickman.Client.Config.{Config}
use clickman.Client.Outcome.{Outcome, delivered, refused, retry, of}
use clickman.Client.Backoff.Float.{Float64}
use clickman.Client.Platform.{Platform}
use clickman.Client.Store.{Database}
use clickman.Client.Queue.{Batch, Urgency, purge, take_batch, remove}
use clickman.Client.Sender.{
  Attempt, World, Answer, reserve, post, settle_as, deliver, send_taken, send_next, drain, goes_on,
}
use clickman.Client.App.Invariant.{Inv, delete-Inv}

module _ (p : Platform) (f : Float64) (config : Config) where
  -- What other calls do to the store during an attempt keeps the invariant.
  pub record Calm (attempt : Attempt f) : Type 0 where
    pub at : (db : Database) → Inv config.max_queue db → Inv config.max_queue (attempt.meanwhile db)

  settle_as-Inv :
      (outcome : Outcome) (batch : Batch) (answer : Answer) (attempt : Attempt f) (w : World)
      → Inv config.max_queue w.database
      → Inv config.max_queue (settle_as p f config outcome batch answer attempt w).database
  unfolding settle_as remove
  settle_as-Inv delivered batch answer attempt w v = delete-Inv config.max_queue _ w.database v
  settle_as-Inv refused batch answer attempt w v = delete-Inv config.max_queue _ w.database v
  settle_as-Inv retry batch answer attempt w v = v

  deliver-Inv :
      (batch : Batch) (attempt : Attempt f) (w : World)
      → Calm attempt
      → Inv config.max_queue w.database
      → Inv config.max_queue (deliver p f config batch attempt w).1.database
  unfolding deliver
  deliver-Inv batch attempt w calm v =
      elim (Result-cases (post p f config batch (rfc3339_millis (p.civil attempt.now)) attempt)) [
        | inl (answer, e) ↦
            rw (e, deliver)
              (settle_as-Inv (of answer.status) batch answer attempt
                (record w { database = attempt.meanwhile w.database }) (calm.at w.database v))
        | inr (error, e) ↦ rw (e, deliver) v
      ]

  send_taken-Inv :
      (taken : Option Batch) (attempt : Attempt f) (w : World)
      → Calm attempt
      → Inv config.max_queue w.database
      → Inv config.max_queue (send_taken p f config taken attempt w).1.database
  unfolding send_taken
  send_taken-Inv none attempt w calm v = v
  send_taken-Inv (some batch) attempt w calm v = deliver-Inv batch attempt w calm v

  send_next-Inv :
      (urgency : Urgency) (attempt : Attempt f) (w : World)
      → Calm attempt
      → Inv config.max_queue w.database
      → Inv config.max_queue (send_next p f config urgency attempt w).1.database
  unfolding send_next take_batch purge
  send_next-Inv urgency attempt w calm v =
      elim (Option-cases (reserve (unix_millis attempt.now) w.state)) [
        | inl e ↦ rw (e, send_next) v
        | inr (state, e) ↦
            rw (e, send_next)
              (send_taken-Inv _ attempt _ calm (delete-Inv config.max_queue _ w.database v))
      ]

  pub drain-Inv :
      (urgency : Urgency) (attempts : List (Attempt f)) (w : World)
      → All Calm attempts
      → Inv config.max_queue w.database
      → Inv config.max_queue (drain p f config urgency attempts w).1.database
  unfolding drain
  drain-Inv urgency [] w calm v = v
  drain-Inv urgency (attempt ∷ attempts) w calm v =
      let v' = send_next-Inv urgency attempt w calm.0 v in
      elim (Bool-cases (goes_on p f config (send_next p f config urgency attempt w).0)) [
        | inl e ↦ rw e (drain-Inv urgency attempts _ calm.1 v')
        | inr e ↦ rw e v'
      ]
