-- ===== src/Client/Sender/Guard.antt =====
-- One flight at a time, and the wait after a failure.
use clickman.Base.{ℕ, ◌≡◌, refl, ◌⊎◌, inl, inr, Option, none, some, arith, Option-cases}
use clickman.Base.Int.{ℤ, ◌<ℤ◌}
use clickman.Client.Error.{ok}
use clickman.Client.Clock.{unix_millis}
use clickman.Client.Config.{Config}
use clickman.Client.Backoff.Float.{Float64}
use clickman.Client.Platform.{Platform}
use clickman.Client.Queue.{Batch, Urgency}
use clickman.Client.Sender.{
  idle, in_flight, waiting, SenderState, Attempt, World, reserve, deliver, send_taken, send_next,
}

reserve_blocked :
    (now : ℤ) (state : SenderState) (failures : ℕ) (until : ℤ)
    → (state.flight ≡ in_flight) ⊎ ((state.backoff ≡ waiting failures until) × (now <ℤ until))
    → reserve now state ≡ none
unfolding reserve
reserve_blocked now state failures until h = ground arith

module _ (p : Platform) (f : Float64) (config : Config) (urgency : Urgency)
    (attempt : Attempt f) where
  -- While a batch is in flight, or a retry waits, a send does nothing at all.
  pub send_next_blocked :
      (w : World) (failures : ℕ) (until : ℤ)
      → (w.state.flight ≡ in_flight)
        ⊎ ((w.state.backoff ≡ waiting failures until) × (unix_millis attempt.now <ℤ until))
      → send_next p f config urgency attempt w ≡ (ok none, w)
  unfolding send_next
  send_next_blocked w failures until h =
      rw (reserve_blocked (unix_millis attempt.now) w.state failures until h, send_next)

  deliver-idle :
      (batch : Batch) (w : World) → (deliver p f config batch attempt w).1.state.flight ≡ idle
  unfolding deliver
  deliver-idle batch w = ground arith

  send_taken-idle :
      (taken : Option Batch) (w : World)
      → (send_taken p f config taken attempt w).1.state.flight ≡ idle
  unfolding send_taken
  send_taken-idle none w = refl
  send_taken-idle (some batch) w = deliver-idle batch w

  -- However a send ends that found nothing in flight, sent or refused or failed, nothing is in
  -- flight after it, so the next one may go.
  pub send_next-idle :
      (w : World)
      → w.state.flight ≡ idle
      → (send_next p f config urgency attempt w).1.state.flight ≡ idle
  unfolding send_next
  send_next-idle w h = elim (Option-cases (reserve (unix_millis attempt.now) w.state)) [
    | inl e ↦ rw (e, send_next) h
    | inr (state, e) ↦ rw (e, send_next) (send_taken-idle _ _)
  ]
