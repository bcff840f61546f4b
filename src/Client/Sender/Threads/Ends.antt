-- ===== src/Client/Sender/Threads/Ends.antt =====
-- The end of a call of `send_next` of rust/crates/clickman/src/sender.rs that waited, as the end of a whole
-- call.
use clickman.Base.{◌≡◌, refl, sym, ap, ◌∙◌, ◌⊎◌, inl, inr, Bool, true, false, some}
use clickman.Client.Clock.{unix_millis, rfc3339_millis}
use clickman.Client.Config.{Config}
use clickman.Client.Outcome.{Outcome, delivered, refused, retry, of}
use clickman.Client.Backoff.Float.{Float64}
use clickman.Client.Platform.{Platform}
use clickman.Client.Store.{Database}
use clickman.Client.Queue.{payload, take_batch}
use clickman.Client.Sender.{Attempt}
use clickman.Client.Sender.{
  World, land, settle, settle_as, back_off, deliver, send_taken, send_next,
}
use clickman.Client.Sender.Threads.{Posted, answer_to, settle_if, conclude, cancel}
use clickman.Client.Sender.Threads.Serial.{abandon, Serial, sends, abandons, Waiting, with_change}

module _ (p : Platform) (f : Float64) (config : Config) where
  -- What happens meanwhile is not asked when the answer is there.
  settle_as_change :
      (outcome : Outcome) (call : Posted f) (change : Database → Database) (v : World)
      → settle_as p f config outcome call.batch
          (answer_to p f config call)
          (with_change p f config call.attempt change)
          v
        ≡ settle_as p f config outcome call.batch (answer_to p f config call) call.attempt v
  unfolding settle_as back_off
  settle_as_change delivered call change v = refl
  settle_as_change refused call change v = refl
  settle_as_change retry call change v = refl

  deliver-conclude :
      (call : Posted f) (change : Database → Database) (v : World)
      → p.compress (payload call.batch (rfc3339_millis (p.civil call.attempt.now))) ≡ some call.body
      → (deliver p f config call.batch (with_change p f config call.attempt change) v).1
        ≡ conclude p f config true call (record v { database = change v.database })
  unfolding conclude deliver settle settle_if
  deliver-conclude call change v e =
      rw (e, deliver)
        (ap (λ (u : World). record u { state = land u.state })
          (settle_as_change (of (answer_to p f config call).status) call change
            (record v { database = change v.database })))

  conclude-cases :
      (works : Bool) (call : Posted f) (now : World)
      → (conclude p f config works call now ≡ conclude p f config true call now)
        ⊎ (conclude p f config works call now ≡ cancel p f config now)
  unfolding conclude cancel settle_if
  conclude-cases true call now = inl refl
  conclude-cases false call now = go (of (answer_to p f config call).status)
    where
      go :
          (outcome : Outcome)
          → (record (settle_if p f config false outcome call now) {
            state = land (settle_if p f config false outcome call now).state;
          }
              ≡ record (settle_if p f config true outcome call now) {
                state = land (settle_if p f config true outcome call now).state;
              })
            ⊎ (record (settle_if p f config false outcome call now) {
              state = land (settle_if p f config false outcome call now).state;
            }
                ≡ record now { state = land now.state })
      go delivered = inr refl
      go refused = inr refl
      go retry = inl refl

module _ (p : Platform) (f : Float64) (config : Config) (Meets : Attempt f → Type 0)
    (Writes : (Database → Database) → Type 0) where
  conclude-send_next :
      (w now : World) (call : Posted f) (h : Waiting p f config Meets Writes w now call)
      → conclude p f config true call now
        ≡ (send_next p f config h.urgency (with_change p f config call.attempt h.change) h.before).1
  unfolding send_next send_taken
  conclude-send_next w now call h =
      let kept = (take_batch config (unix_millis call.attempt.now) h.urgency h.before.database).1 in
      let v : World = record { database = kept; state = h.state } in
      rw (h.reserved, send_next)
        (ap (conclude p f config true call) h.is_now
          ∙ (sym (deliver-conclude p f config call h.change v h.compressed)
              ∙ ap
                  (λ taken.
                    (send_taken p f config taken (with_change p f config call.attempt h.change)
                      v).1)
                  (sym h.took)))

  pub cancel-abandon :
      (w now : World) (call : Posted f) (h : Waiting p f config Meets Writes w now call)
      → cancel p f config now
        ≡ abandon p f config h.urgency (with_change p f config call.attempt h.change) h.before
  unfolding cancel
  cancel-abandon w now call h = rw (h.reserved, abandon) (ap (cancel p f config) h.is_now)

  pub conclude-Serial :
      (w : World) (works : Bool) (now : World) (call : Posted f)
      → Waiting p f config Meets Writes w now call
      → Serial p f config Meets Writes w (conclude p f config works call now)
  conclude-Serial w works now call h = elim (conclude-cases p f config works call now) [
    | inl e ↦
        sends h.serial h.urgency call.attempt h.meets h.change h.composed
          (e ∙ conclude-send_next w now call h)
    | inr e ↦
        abandons h.serial h.urgency call.attempt h.meets h.change h.composed
          (e ∙ cancel-abandon w now call h)
  ]
