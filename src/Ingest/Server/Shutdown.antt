-- ===== src/Ingest/Server/Shutdown.antt =====
-- `shutdown_signal` of rust/crates/clickman-ingest/src/main.rs: what the server waits for before it stops,
-- and how long it may take to stop after it. The signals of the process and the reads of its standard
-- input are a sequence of events; the two handlers of signals are installed or not.
use mathlib.Core.List.{append-nil}
use clickman.Base.{
  ℕ, ◌*◌, ◌≤◌, ◌≡◌, refl, sym, ap, subst, ◌∙◌, ◌↔◌, Bool, true, false, ◌&&◌, Option, none, some,
  List, [], ◌∷◌, ◌++◌, All, ltb, ◌==◌, if◌then◌else◌, arith, Bool-cases, inl, inr, Option-cases,
}
use clickman.Base.Text.{Text, text, text_eq, text_eq→eq, text_eq_refl}

abbrev pub orphan_hard_exit_timeout : ℕ
orphan_hard_exit_timeout = 10 * 1_000_000_000

pub record Process : Type 0 where
  pub ctrl_c_installed : Bool
  pub terminate_installed : Bool
  pub supervised : Option Text  -- the variable CLICKMAN_INGEST_SUPERVISED

pub data Event : Type 0 where
  interrupted : Event
  terminated : Event
  stdin_read : ℕ → Event
  stdin_failed : Event

-- Which of the three futures ended the wait.
pub data Cause : Type 0 where
  signalled : Cause
  orphaned : Cause

abbrev is_one : Option Text → Bool
is_one none = false
is_one (some value) = text_eq value (text "1")

unfoldable pub has_lifeline : Process → Bool
has_lifeline process = is_one process.supervised

-- What an event ends, if the futures wait for it.
unfoldable pub ended_by : Process → Event → Option Cause
unfolding has_lifeline
ended_by process interrupted = some signalled
ended_by process terminated = some signalled
ended_by process (stdin_read bytes) =
    if has_lifeline process && bytes == 0 then some orphaned else none
ended_by process stdin_failed = if has_lifeline process then some orphaned else none

unfoldable pub select : Process → List Event → Option Cause
unfolding ended_by
select process [] = none
select process (event ∷ events) = elim (ended_by process event) [
  | none ↦ select process events
  | some cause ↦ some cause
]

abbrev pub installed : Process → Bool
installed process = process.ctrl_c_installed && process.terminate_installed

-- A future whose handler cannot be installed logs the error and has ended, which ends the wait too.
unfoldable pub shutdown_signal : Process → List Event → Option Cause
unfolding select
shutdown_signal process events = if installed process then select process events else some signalled

-- How the process ends, and after how many nanoseconds, where the requests in flight take `serving` of
-- them, or for ever: a server without its supervisor exits in any case.
unfoldable pub exit_after : Cause → Option ℕ → Option (Bool × ℕ)
exit_after signalled none = none
exit_after signalled (some serving) = some (true, serving)
exit_after orphaned none = some (false, orphan_hard_exit_timeout)
exit_after orphaned (some serving) =
    if ltb serving orphan_hard_exit_timeout
    then some (true, serving)
    else some (false, orphan_hard_exit_timeout)

-- The events that end the server, and as what.
pub data Ends (supervised : Option Text) : Event → Cause → Type 0 where
  by_interrupt : Ends supervised interrupted signalled
  by_terminate : Ends supervised terminated signalled
  by_end : supervised ≡ some (text "1") → Ends supervised (stdin_read 0) orphaned
  by_failure : supervised ≡ some (text "1") → Ends supervised stdin_failed orphaned

some-inj : (a b : Cause) → some a ≡ some b → a ≡ b
some-inj a b h = ground arith

none-some : (cause : Cause) → ◌≡◌ {A = Option Cause} none (some cause) → ⊥
none-some cause h = cc

-- The events that the server lives through.
abbrev pub Ignored : Option Text → Event → Type 0
Ignored supervised event = (cause : Cause) → Ends supervised event cause → ⊥

supervised-has_lifeline :
    (process : Process) → process.supervised ≡ some (text "1") → has_lifeline process ≡ true
unfolding has_lifeline
supervised-has_lifeline process h = ap is_one h ∙ text_eq_refl (text "1")

has_lifeline-supervised :
    (process : Process) → has_lifeline process ≡ true → process.supervised ≡ some (text "1")
unfolding has_lifeline
has_lifeline-supervised process h = go process.supervised h
  where
    go : (supervised : Option Text) → is_one supervised ≡ true → supervised ≡ some (text "1")
    go none e = absurd (ground arith)
    go (some value) e = ap some (text_eq→eq value (text "1") e)

Ends-ended_by :
    (process : Process) (event : Event) (cause : Cause)
    → Ends process.supervised event cause
    → ended_by process event ≡ some cause
unfolding ended_by
Ends-ended_by process _ _ by_interrupt = refl
Ends-ended_by process _ _ by_terminate = refl
Ends-ended_by process _ _ (by_end h) = ground (arith, supervised-has_lifeline process h)
Ends-ended_by process _ _ (by_failure h) = ground (arith, supervised-has_lifeline process h)

ended_by-Ends :
    (process : Process) (event : Event) (cause : Cause)
    → ended_by process event ≡ some cause
    → Ends process.supervised event cause
unfolding ended_by
ended_by-Ends process interrupted cause h =
    subst (Ends process.supervised interrupted) (some-inj signalled cause h) by_interrupt
ended_by-Ends process terminated cause h =
    subst (Ends process.supervised terminated) (some-inj signalled cause h) by_terminate
ended_by-Ends process (stdin_read bytes) cause h =
    let lifeline : has_lifeline process ≡ true = ground arith in
    let nothing : 0 ≡ bytes = ground arith in
    let same : orphaned ≡ cause = ground arith in
    subst (Ends process.supervised (stdin_read bytes)) same (
      subst (λ n. Ends process.supervised (stdin_read n) orphaned) nothing
        (by_end (has_lifeline-supervised process lifeline)))
ended_by-Ends process stdin_failed cause h =
    let lifeline : has_lifeline process ≡ true = ground arith in
    let same : orphaned ≡ cause = ground arith in
    subst (Ends process.supervised stdin_failed) same
      (by_failure (has_lifeline-supervised process lifeline))

Ignored-ended_by :
    (process : Process) (event : Event)
    → Ignored process.supervised event
    → ended_by process event ≡ none
Ignored-ended_by process event h = elim (Option-cases (ended_by process event)) [
  | inl e ↦ e
  | inr (cause, e) ↦ absurd (h cause (ended_by-Ends process event cause e))
]

ended_by-Ignored :
    (process : Process) (event : Event)
    → ended_by process event ≡ none
    → Ignored process.supervised event
ended_by-Ignored process event h cause ends =
    none-some cause (sym h ∙ Ends-ended_by process event cause ends)

select-ignores :
    (process : Process) (before events : List Event)
    → All (Ignored process.supervised) before
    → select process (before ++ events) ≡ select process events
unfolding select
select-ignores process [] events h = refl
select-ignores process (event ∷ before) events h =
    rw (Ignored-ended_by process event h.0, select) (select-ignores process before events h.1)

select-none :
    (process : Process) (events : List Event)
    → select process events ≡ none
    → All (Ignored process.supervised) events
unfolding select
select-none process [] h = tt
select-none process (event ∷ events) h = elim (Option-cases (ended_by process event)) [
  | inl e ↦ (ended_by-Ignored process event e, select-none process events (rw (e, select) at h))
  | inr (cause, e) ↦ absurd (ground arith)
]

shutdown_signal-none :
    (process : Process) (events : List Event)
    → (shutdown_signal process events ≡ none)
      ↔ ((installed process ≡ true) × All (Ignored process.supervised) events)
unfolding shutdown_signal
shutdown_signal-none process events = elim (Bool-cases (installed process)) [
  | inl e ↦
      let open_ : shutdown_signal process events ≡ select process events = rw e refl in
      ((λ h. (e, select-none process events (sym open_ ∙ h))), (λ h. open_ ∙ lives events h.1))
  | inr e ↦ (
    (λ h. absurd (none-some signalled (sym h ∙ rw e refl))),
    (λ h. absurd (false-true (sym e ∙ h.0))),
  )
]
  where
    false-true : false ≡ true → ⊥
    false-true h = cc

    lives :
        (events : List Event)
        → All (Ignored process.supervised) events
        → select process events ≡ none
    lives events h =
        ap (select process) (sym (append-nil events))
        ∙ select-ignores process events [] h
        ∙ unfold select in refl

exit_after-orphaned :
    (serving : Option ℕ)
    → (served : Bool) × (n : ℕ) × (exit_after orphaned serving ≡ some (served, n))
      × (n ≤ orphan_hard_exit_timeout)
unfolding exit_after
exit_after-orphaned none = (_, _, refl, omega arith)
exit_after-orphaned (some serving) = elim (Bool-cases (ltb serving orphan_hard_exit_timeout)) [
  | inl e ↦ (true, serving, rw e refl, ground arith)
  | inr e ↦ (false, orphan_hard_exit_timeout, rw e refl, omega arith)
]

-- The server runs on exactly while both handlers of signals are installed and no event ends it: a signal
-- does, and where `CLICKMAN_INGEST_SUPERVISED` is `1` the end or a failure of its standard input. Where the
-- handlers are installed it stops at the first such event, for a signal or as an orphan, and without one of
-- them it stops at once, as for a signal. An orphan is gone after ten seconds at the latest, however long
-- its requests take, and after just as many where they never end.
pub shutdown_exact :
    (process : Process) (before after : List Event) (event : Event) (cause : Cause)
    (serving : Option ℕ)
    → All (Ignored process.supervised) before
    → Ends process.supervised event cause
    → ((shutdown_signal process after ≡ none)
        ↔ ((installed process ≡ true) × All (Ignored process.supervised) after))
      × (shutdown_signal process (before ++ event ∷ after) ≡ (
          if process.ctrl_c_installed && process.terminate_installed
          then some cause
          else some signalled))
      × ((served : Bool) × (n : ℕ) × (exit_after orphaned serving ≡ some (served, n))
          × (n ≤ 10_000_000_000))
      × (exit_after orphaned none ≡ some (false, 10_000_000_000))
unfolding shutdown_signal exit_after
shutdown_exact process before after event cause serving ignored ends = (
  shutdown_signal-none process after,
  ap (λ c. if installed process then c else some signalled)
      (select-ignores process before (event ∷ after) ignored
        ∙ rw (Ends-ended_by process event cause ends, select) refl),
  exit_after-orphaned serving,
  refl,
)
