-- ===== src/Client/Refine.antt =====
-- What the queue of a client promises, with nothing of how it is kept: events wait in the order they
-- were tracked, and one leaves only to make room, for its age, or in a batch that was answered.
pub mod Writes
pub mod Sends
pub mod Calls
pub mod Unaltered
use clickman.Base.{
  ℕ, suc, ◌-◌, ◌≡◌, refl, subst, sym, ◌⊎◌, not, some, List, [], ◌∷◌, ◌++◌, length, drop, keep, ltb,
}
use clickman.Base.Int.{ℤ, ltb_ℤ, saturating_sub}
use clickman.Client.Clock.{millis}
use clickman.Base.Text.{Text}
use clickman.Client.Error.{ok}
use clickman.Client.Config.{Config}
use clickman.Client.Outcome.{delivered, refused, of}
use clickman.Client.Backoff.Float.{Float64}
use clickman.Client.Platform.{Platform}
use clickman.Client.Store.{Row, Database}
use clickman.Client.Queue.{Batch, Urgency, take_batch}
use clickman.Client.Queue.Order.{IsOrdered}
use clickman.Client.Sender.{Attempt, Answer, post}

-- The events that wait, and how many were ever given a number.
pub record Waiting : Type 0 where
  pub rows : List Row
  pub given : ℕ

abbrev pub waiting_of : Database → Waiting
waiting_of db = record { rows = db.events; given = db.sequence }

-- An event under the next number; the oldest go if they are more than there is room for.
abbrev pub put : ℕ → ℤ → Text → Waiting → Waiting
put room at body q =
    let rows = q.rows ++ record { seq = suc q.given; created_at = at; body = body } ∷ [] in
    record { rows = drop (length rows - room) rows; given = suc q.given }

abbrev pub expire : ℤ → Waiting → Waiting
expire before q = record q { rows = keep (λ row. not (ltb_ℤ row.created_at before)) q.rows }

abbrev pub discard : Batch → Waiting → Waiting
discard batch q = record q { rows = keep (λ row. not (ltb row.seq batch.last_seq)) q.rows }

module _ (p : Platform) (f : Float64) (config : Config) (SendsAt : ℤ → Type 0) where
  -- The batch was taken from the queue at an instant of a send, and the server answered it as delivered or as refused.
  pub record Answered (batch : Batch) : Type 0 where
    pub now : ℤ
    pub sent : SendsAt now
    pub urgency : Urgency
    pub from : Database
    pub taken : (take_batch config now urgency from).0 ≡ some batch
    pub sent_at : Text
    pub attempt : Attempt f
    pub answer : Answer
    pub posted : post p f config batch sent_at attempt ≡ ok answer
    pub settled : (of answer.status ≡ delivered) ⊎ (of answer.status ≡ refused)

  pub data Change : Waiting → Waiting → Type 0 where
    tracked : (at : ℤ) (body : Text) (q : Waiting) → Change q (put config.max_queue at body q)
    expired :
        (now : ℤ)
        → SendsAt now
        → (q : Waiting) → Change q (expire (saturating_sub now (millis config.max_age)) q)
    answered : (batch : Batch) → Answered batch → (q : Waiting) → Change q (discard batch q)

  pub data Changes (q : Waiting) : Waiting → Type 0 where
    here : Changes q q
    then : (a b : Waiting) → Changes q a → Change a b → Changes q b

  pub Changes-trans : (a b c : Waiting) → Changes a b → Changes b c → Changes a c
  Changes-trans a b c g here = g
  Changes-trans a b c g (then d _ h change) = then d c (Changes-trans a b d g h) change

  pub one : (a b : Waiting) → Change a b → Changes a b
  one a b change = then a b here change

  -- What becomes of a store in order: a chain of such changes, and a store in order.
  abbrev pub Refines : Database → Database → Type 0
  Refines db db' = Changes (waiting_of db) (waiting_of db') × IsOrdered db'

  pub Refines-trans : (a b c : Database) → Refines a b → (IsOrdered b → Refines b c) → Refines a c
  Refines-trans a b c (g, o) next =
      let (h, o') = next o in (Changes-trans (waiting_of a) (waiting_of b) (waiting_of c) g h, o')
