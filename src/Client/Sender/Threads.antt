-- ===== src/Client/Sender/Threads.antt =====
-- `Sender` of rust/crates/clickman/src/sender.rs as several calls meet it: each call of `send_next` is
-- here in two parts, up to its post and from the answer on, and other calls of the client may come
-- between them. A call that waits for its answer may also be cancelled, and its write to the store may
-- fail. The `meanwhile` of an attempt is not used here: what happens meanwhile is the steps between.
pub mod Serial
pub mod Ends
pub mod Reached
use clickman.Base.{◌≡◌, ℕ, Bool, true, false, Option, none, some, List, [], ◌∷◌, ◌++◌}
use clickman.Client.Clock.{unix_millis, rfc3339_millis}
use clickman.Client.Config.{Config}
use clickman.Client.Outcome.{Outcome, delivered, refused, retry, of}
use clickman.Client.Backoff.Float.{Float64}
use clickman.Client.Platform.{Platform}
use clickman.Client.Store.{Database}
use clickman.Client.Queue.{Batch, Urgency, payload, take_batch}
use clickman.Client.Sender.{
  Attempt, World, Answer, answer_of, url, headers, land, reserve, settle_as,
}

module _ (f : Float64) where
  -- A call that has posted its batch, and holds the flight until it ends.
  pub record Posted : Type 0 where
    pub batch : Batch
    pub body : List ℕ
    pub attempt : Attempt f

  pub record System : Type 0 where
    pub world : World
    pub posted : List Posted

module _ (p : Platform) (f : Float64) (config : Config) where
  -- `post` up to the request; where compressing fails the call ends.
  unfoldable pub post_batch : Batch → Option (List ℕ) → Attempt f → System f → System f
  unfolding land
  post_batch batch none attempt s = record s {
    world = record s.world { state = land s.world.state };
  }
  post_batch batch (some body) attempt s = record s {
    posted = s.posted ++ record { batch = batch; body = body; attempt = attempt } ∷ [];
  }

  unfoldable pub begin_taken : Option Batch → Attempt f → System f → System f
  unfolding post_batch land
  begin_taken none attempt s = record s { world = record s.world { state = land s.world.state } }
  begin_taken (some batch) attempt s =
      post_batch batch (p.compress (payload batch (rfc3339_millis (p.civil attempt.now)))) attempt s

  -- `send_next` up to its post: the flight is reserved, and the batch is taken.
  unfoldable pub begin : Urgency → Attempt f → System f → System f
  unfolding begin_taken reserve
  begin urgency attempt s = elim (reserve (unix_millis attempt.now) s.world.state) [
    | none ↦ s
    | some state ↦
        let (taken, database) =
          take_batch config (unix_millis attempt.now) urgency s.world.database in
        begin_taken taken attempt
          (record s { world = record { database = database; state = state } })
  ]

  abbrev pub answer_to : Posted f → Answer
  answer_to call =
      answer_of (
        call.attempt.reply
          (record { url = url config; headers = headers config; body = call.body }))

  -- `settle`, where the write to the store works or fails; a failed write ends the call with an error.
  unfoldable pub settle_if : Bool → Outcome → Posted f → World → World
  settle_if true outcome call w =
      settle_as p f config outcome call.batch (answer_to call) call.attempt w
  settle_if false retry call w =
      settle_as p f config retry call.batch (answer_to call) call.attempt w
  settle_if false delivered call w = w
  settle_if false refused call w = w

  -- The rest of `send_next`, and the drop of its guard.
  unfoldable pub conclude : Bool → Posted f → World → World
  unfolding settle_if land
  conclude works call w =
      let w' = settle_if works (of (answer_to call).status) call w in
      record w' { state = land w'.state }

  -- The drop of the guard of a call that is cancelled.
  unfoldable pub cancel : World → World
  unfolding land
  cancel w = record w { state = land w.state }

  -- What may happen next, with attempts and changes of the store of a given kind: a send begins, one of
  -- the calls that wait goes on or is cancelled, or another call of the client changes the store. A send
  -- whose first write to the store fails changes nothing.
  module _ (Meets : Attempt f → Type 0) (Writes : (Database → Database) → Type 0) where
    pub data Step (s : System f) : System f → Type 0 where
      begins :
          (urgency : Urgency) (attempt : Attempt f)
          → Meets attempt
          → Step s (begin urgency attempt s)
      concludes :
          (works : Bool) (before after : List (Posted f)) (call : Posted f)
          → s.posted ≡ before ++ call ∷ after
          → Step s (record { world = conclude works call s.world; posted = before ++ after })
      cancels :
          (before after : List (Posted f)) (call : Posted f)
          → s.posted ≡ before ++ call ∷ after
          → Step s (record { world = cancel s.world; posted = before ++ after })
      writes :
          (change : Database → Database)
          → Writes change
          → Step s (record s { world = record s.world { database = change s.world.database } })

    pub data Reach (s : System f) : System f → Type 0 where
      here : Reach s s
      next : {t u : System f} → Reach s t → Step t u → Reach s u
