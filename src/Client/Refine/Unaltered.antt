-- ===== src/Client/Refine/Unaltered.antt =====
-- What a history of calls leaves of the events that waited before it.
use mathlib.Core.List.{Memᴰ}
use clickman.Base.{
  ◌≤◌, ◌<◌, ◌⊎◌, inl, inr, List, All, All-append, All-map, All-Mem, All-drop, All-at, All-keep,
  arith,
}
use clickman.Base.Int.{ℤ, i64_max}
use clickman.Client.Config.{Config}
use clickman.Client.Backoff.Float.{Float64}
use clickman.Client.Platform.{Platform}
use clickman.Client.Store.{Row}
use clickman.Client.Queue.Order.{IsOrdered}
use clickman.Client.App.{ClickMan}
use clickman.Client.App.Calls.{Call, run}
use clickman.Client.Refine.{
  Waiting, waiting_of, Change, tracked, expired, answered, Changes, here, then,
}
use clickman.Client.Refine.Calls.{FaithfulCall, run-Refines}

-- A row that is newer than the queue, or waits in it.
abbrev pub Known : Waiting → Row → Type 0
Known q row = (q.given < row.seq) ⊎ Memᴰ row q.rows

Known-All : (q : Waiting) → All (Known q) q.rows
Known-All q = All-map (λ row. Memᴰ row q.rows) (Known q) q.rows (λ row h. inr h) (All-Mem q.rows)

module _ (p : Platform) (f : Float64) (config : Config) (SendsAt : ℤ → Type 0) where
  change-Known :
      (a b : Waiting) → Change p f config SendsAt a b → (a.given ≤ b.given) × All (Known a) b.rows
  change-Known a _ (tracked at body _) = (
    omega arith,
    All-drop (Known a) _ _ (All-append (Known a) a.rows _ (Known-All a) (inl (omega arith), tt)),
  )
  change-Known a _ (expired now sent _) = (omega arith, All-keep (Known a) _ a.rows (Known-All a))
  change-Known a _ (answered batch evidence _) =
      (omega arith, All-keep (Known a) _ a.rows (Known-All a))

  changes-Known :
      (a b : Waiting) → Changes p f config SendsAt a b → (a.given ≤ b.given) × All (Known a) b.rows
  changes-Known a _ here = (omega arith, Known-All a)
  changes-Known a _ (then b c chain change) =
      let (le, known) = changes-Known a b chain in
      let (le', known') = change-Known b c change in
      (
        omega arith,
        All-map (Known b) (Known a) c.rows
            (λ row h. elim h [
              | inl newer ↦ inl (omega arith)
              | inr waits ↦ All-at (Known a) b.rows row known waits
            ])
            known',
      )

  -- No history of calls on a store in order, with `max_queue` within `i64`, alters an event that waits
  -- or gives its number again: an event that waits after it is numbered above all that were tracked
  -- before it, or waited before it, with the same number, time and body. This is so where what other
  -- calls do to the store during a send is a chain of the changes that are promised of the queue and
  -- leaves the store in order.
  pub run-unaltered :
      (bound : config.max_queue ≤ i64_max) (calls : List (Call f)) (c : ClickMan)
      → All (FaithfulCall p f config SendsAt) calls
      → IsOrdered c.store
      → All
          (λ row. (c.store.sequence < row.seq) ⊎ Memᴰ row c.store.events)
          (run p f config calls c).store.events
  run-unaltered bound calls c calm o =
      (changes-Known (waiting_of c.store) _
        (run-Refines p f config SendsAt bound calls c calm o).0).1
