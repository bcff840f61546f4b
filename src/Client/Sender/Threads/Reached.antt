-- ===== src/Client/Sender/Threads/Reached.antt =====
-- The flight of `Sender` in rust/crates/clickman/src/sender.rs makes its calls serial.
use clickman.Base.{
  ℕ, ◌≡◌, refl, ap, inl, inr, subst, Option, none, some, List, [], ◌∷◌, ◌++◌, arith, Option-cases,
}
use clickman.Base.Int.{ℤ}
use clickman.Client.Clock.{unix_millis, rfc3339_millis}
use clickman.Client.Config.{Config}
use clickman.Client.Backoff.Float.{Float64}
use clickman.Client.Platform.{Platform}
use clickman.Client.Store.{Database}
use clickman.Client.Queue.{Batch, Urgency, payload, take_batch}
use clickman.Client.Sender.{idle, in_flight, SenderState, Attempt, World, reserve}
use clickman.Client.Sender.Threads.{
  Posted, System, post_batch, begin_taken, begin, conclude, cancel, Step, begins, concludes,
  cancels, writes, Reach, here, next,
}
use clickman.Client.Sender.Threads.Serial.{
  abandon, unchanged, changed, Serial, start, abandons, changes, Waiting, IsSerial,
}
use clickman.Client.Sender.Threads.Ends.{conclude-Serial, cancel-abandon}

only-parts :
    {A : Type 0} (xs before after : List A) (a b : A)
    → xs ≡ a ∷ []
    → xs ≡ before ++ b ∷ after
    → (a ≡ b) × (before ++ after ≡ [])
only-parts xs [] [] a b h e = ground arith
only-parts xs [] (y ∷ after) a b h e = absurd (ground arith)
only-parts xs (x ∷ []) after a b h e = absurd (ground arith)
only-parts xs (x ∷ y ∷ before) after a b h e = absurd (ground arith)

nothing-parts :
    {A : Type 0} (xs before after : List A) (b : A) → xs ≡ [] → xs ≡ before ++ b ∷ after → ⊥
nothing-parts xs [] after b h e = cc
nothing-parts xs (x ∷ before) after b h e = cc

reserved-idle :
    (now : ℤ) (state state' : SenderState) → reserve now state ≡ some state' → state.flight ≡ idle
unfolding reserve
reserved-idle now state state' h = ground arith

reserved-in_flight :
    (now : ℤ) (state state' : SenderState)
    → reserve now state ≡ some state'
    → state' ≡ record { flight = in_flight; backoff = state.backoff }
unfolding reserve
reserved-in_flight now state state' h = ground arith

reserve-in_flight :
    (now : ℤ) (state : SenderState) → state.flight ≡ in_flight → reserve now state ≡ none
unfolding reserve
reserve-in_flight now state h = ground arith

module _ (p : Platform) (f : Float64) (config : Config) (Meets : Attempt f → Type 0)
    (Writes : (Database → Database) → Type 0) where
  module _ (w : World) where
    -- The part of a call up to its post, where no call waits.
    post-IsSerial :
        (urgency : Urgency) (attempt : Attempt f) (meets : Meets attempt) (s : System f)
        (state : SenderState) (batch : Batch) (body : Option (List ℕ))
        → s.posted ≡ []
        → Serial p f config Meets Writes w s.world
        → reserve (unix_millis attempt.now) s.world.state ≡ some state
        → (take_batch config (unix_millis attempt.now) urgency s.world.database).0 ≡ some batch
        → p.compress (payload batch (rfc3339_millis (p.civil attempt.now))) ≡ body
        → IsSerial p f config Meets Writes w (
            post_batch p f config batch body attempt (record s {
              world = record {
                database = (take_batch config (unix_millis attempt.now) urgency s.world.database).1;
                state = state;
              };
            }))
    unfolding post_batch
    post-IsSerial urgency attempt meets s state batch none quiet serial reserved took compressed =
        inl (
          quiet,
          refl,
          abandons serial urgency attempt meets (λ db. db) unchanged (rw (reserved, abandon) refl),
        )
    post-IsSerial urgency attempt meets s state batch (some body) quiet serial reserved took
          compressed =
        inr (
          record { batch = batch; body = body; attempt = attempt },
          ap (λ posted. posted ++ record { batch = batch; body = body; attempt = attempt } ∷ [])
              quiet,
          ap (λ (s : SenderState). s.flight)
              (reserved-in_flight (unix_millis attempt.now) s.world.state state reserved),
          record {
            before = s.world;
            serial = serial;
            urgency = urgency;
            meets = meets;
            state = state;
            change = λ db. db;
            composed = unchanged;
            reserved = reserved;
            took = took;
            compressed = compressed;
            is_now = refl;
          },
        )

    taken-IsSerial :
        (urgency : Urgency) (attempt : Attempt f) (meets : Meets attempt) (s : System f)
        (state : SenderState) (taken : Option Batch)
        → s.posted ≡ []
        → Serial p f config Meets Writes w s.world
        → reserve (unix_millis attempt.now) s.world.state ≡ some state
        → (take_batch config (unix_millis attempt.now) urgency s.world.database).0 ≡ taken
        → IsSerial p f config Meets Writes w (
            begin_taken p f config taken attempt (record s {
              world = record {
                database = (take_batch config (unix_millis attempt.now) urgency s.world.database).1;
                state = state;
              };
            }))
    unfolding begin_taken
    taken-IsSerial urgency attempt meets s state none quiet serial reserved took = inl (
      quiet,
      refl,
      abandons serial urgency attempt meets (λ db. db) unchanged (rw (reserved, abandon) refl),
    )
    taken-IsSerial urgency attempt meets s state (some batch) quiet serial reserved took =
        post-IsSerial urgency attempt meets s state batch _ quiet serial reserved took refl

    begin-IsSerial :
        (urgency : Urgency) (attempt : Attempt f) (meets : Meets attempt) (s : System f)
        → IsSerial p f config Meets Writes w s
        → IsSerial p f config Meets Writes w (begin p f config urgency attempt s)
    unfolding begin
    begin-IsSerial urgency attempt meets s (inl (quiet, is_idle, serial)) =
        elim (Option-cases (reserve (unix_millis attempt.now) s.world.state)) [
          | inl e ↦ rw (e, begin) (inl (quiet, is_idle, serial))
          | inr (state, e) ↦
              rw (e, begin) (taken-IsSerial urgency attempt meets s state _ quiet serial e refl)
        ]
    begin-IsSerial urgency attempt meets s (inr (call, one, flies, waits)) =
        rw (reserve-in_flight (unix_millis attempt.now) s.world.state flies, begin)
          (inr (call, one, flies, waits))

    Waiting-change :
        (now : World) (call : Posted f) (change : Database → Database)
        → Writes change
        → Waiting p f config Meets Writes w now call
        → Waiting p f config Meets Writes w (record now { database = change now.database }) call
    Waiting-change now call change allowed h = record {
      before = h.before;
      serial = h.serial;
      urgency = h.urgency;
      meets = h.meets;
      state = h.state;
      change = λ db. change (h.change db);
      composed = changed h.composed allowed;
      reserved = h.reserved;
      took = h.took;
      compressed = h.compressed;
      is_now = ap (λ (v : World). record v { database = change v.database }) h.is_now;
    }

    Step-IsSerial :
        (s t : System f)
        → Step p f config Meets Writes s t
        → IsSerial p f config Meets Writes w s
        → IsSerial p f config Meets Writes w t
    unfolding conclude cancel
    Step-IsSerial s t (begins urgency attempt meets) h = begin-IsSerial urgency attempt meets s h
    Step-IsSerial s t (concludes works before after call e) (inl (quiet, is_idle, serial)) =
        absurd (nothing-parts s.posted before after call quiet e)
    Step-IsSerial s t (concludes works before after call e) (inr (one, is_one, flies, waits)) =
        let (same, rest) = only-parts s.posted before after one call is_one e in
        inl (
          rest,
          refl,
          conclude-Serial p f config Meets Writes w works s.world call
              (subst (Waiting p f config Meets Writes w s.world) same waits),
        )
    Step-IsSerial s t (cancels before after call e) (inl (quiet, is_idle, serial)) =
        absurd (nothing-parts s.posted before after call quiet e)
    Step-IsSerial s t (cancels before after call e) (inr (one, is_one, flies, waits)) =
        let (same, rest) = only-parts s.posted before after one call is_one e in
        inl (
          rest,
          refl,
          abandons waits.serial waits.urgency one.attempt waits.meets waits.change waits.composed
              (cancel-abandon p f config Meets Writes w s.world one waits),
        )
    Step-IsSerial s t (writes change allowed) (inl (quiet, is_idle, serial)) =
        inl (quiet, is_idle, changes serial change allowed refl)
    Step-IsSerial s t (writes change allowed) (inr (call, one, flies, waits)) =
        inr (call, one, flies, Waiting-change s.world call change allowed waits)

    -- However calls of `send_next` interleave with each other and with the other calls, cancelled ones
    -- and failed writes included, from a world with nothing in flight: at most one of them waits for
    -- an answer at a time, and the flight is taken exactly while one does. While none waits, the world
    -- is one that whole calls come to, one after the other: sends with some changes of the store during
    -- each, sends that were abandoned, and changes of the store. The attempts and the changes of the
    -- whole calls are of whatever kind those of the interleaved ones are.
    pub Reach-IsSerial :
        (t : System f)
        → w.state.flight ≡ idle
        → Reach p f config Meets Writes (record { world = w; posted = [] }) t
        → IsSerial p f config Meets Writes w t
    Reach-IsSerial t is_idle here = inl (refl, is_idle, start)
    Reach-IsSerial t is_idle (next {t = u} reach step) =
        Step-IsSerial u t step (Reach-IsSerial u is_idle reach)
