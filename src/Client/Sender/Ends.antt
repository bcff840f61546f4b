-- ===== src/Client/Sender/Ends.antt =====
-- The end of the loop of `drain`.
use mathlib.Core.List.{Memᴰ}
use mathlib.Core.List.Memᴰ.{head, tail}
use clickman.Base.{
  ◌≡◌, refl, subst, inl, inr, false, Option, none, some, List, [], ◌∷◌, arith, Option-cases,
  Bool-cases,
}
use clickman.Client.Error.{Result}
use clickman.Client.Clock.{unix_millis, rfc3339_millis}
use clickman.Client.Config.{Config}
use clickman.Client.Outcome.{retry, of}
use clickman.Client.Backoff.Float.{Float64}
use clickman.Client.Platform.{Platform}
use clickman.Client.Queue.{Batch, Urgency, payload}
use clickman.Client.Sender.{
  Attempt, World, Request, answer_of, reserve, deliver, send_taken, send_next, goes_on, drained,
  drain,
}

module _ (p : Platform) (f : Float64) (config : Config) where
  -- An attempt at which every answer is one to try again after: no response, an unknown key, too many
  -- requests or a failure of the server.
  abbrev pub Fails : Attempt f → Type 0
  Fails attempt = (request : Request) → of (answer_of (attempt.reply request)).status ≡ retry

  deliver-Fails :
      (batch : Batch) (attempt : Attempt f) (w : World)
      → Fails attempt
      → goes_on p f config (deliver p f config batch attempt w).0 ≡ false
  unfolding deliver
  deliver-Fails batch attempt w fails =
      elim (Option-cases (p.compress (payload batch (rfc3339_millis (p.civil attempt.now))))) [
        | inl e ↦ ground arith
        | inr (body, e) ↦ rw (e, deliver) (rw (fails _) refl)
      ]

  send_taken-Fails :
      (taken : Option Batch) (attempt : Attempt f) (w : World)
      → Fails attempt
      → goes_on p f config (send_taken p f config taken attempt w).0 ≡ false
  unfolding send_taken
  send_taken-Fails none attempt w fails = refl
  send_taken-Fails (some batch) attempt w fails = deliver-Fails batch attempt w fails

  send_next-Fails :
      (urgency : Urgency) (attempt : Attempt f) (w : World)
      → Fails attempt
      → goes_on p f config (send_next p f config urgency attempt w).0 ≡ false
  unfolding send_next
  send_next-Fails urgency attempt w fails =
      elim (Option-cases (reserve (unix_millis attempt.now) w.state)) [
        | inl e ↦ rw (e, send_next) refl
        | inr (state, e) ↦ rw (e, send_next) (send_taken-Fails _ attempt _ fails)
      ]

  abbrev stopped : Urgency → Attempt f → World → Result (Unit {0})
  stopped urgency attempt w = drained p f config (send_next p f config urgency attempt w).0

  -- The loop of a flush ends within any attempts of which one fails, whatever the queue, the sender and
  -- the other attempts are.
  pub drain_ends :
      (urgency : Urgency) (attempts : List (Attempt f)) (w : World) (attempt : Attempt f)
      → Memᴰ attempt attempts
      → Fails attempt
      → (result : Result (Unit {0})) × ((drain p f config urgency attempts w).0 ≡ some result)
  unfolding drain
  drain_ends urgency [] w attempt found fails = elim found [ ]
  drain_ends urgency (a ∷ attempts) w attempt (head e) fails =
      (stopped urgency a w, rw (send_next-Fails urgency a w (subst Fails e fails)) refl)
  drain_ends urgency (a ∷ attempts) w attempt (tail found) fails =
      elim (Bool-cases (goes_on p f config (send_next p f config urgency a w).0)) [
        | inl goes ↦
            let (result, ends) =
              drain_ends urgency attempts (send_next p f config urgency a w).1 attempt found
                fails in
            (result, rw goes ends)
        | inr stops ↦ (stopped urgency a w, rw stops refl)
      ]
