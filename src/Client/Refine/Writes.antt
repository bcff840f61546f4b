-- ===== src/Client/Refine/Writes.antt =====
-- The transactions of the client as changes of the queue.
use clickman.Base.{◌≤◌, ◌≡◌, inl, inr, List, [], ◌∷◌, arith, subst, sym, ◌∙◌}
use clickman.Base.Int.{ℤ, i64_max}
use clickman.Base.Text.{Text}
use clickman.Json.{Fields}
use clickman.Client.Error.{ok, Result-cases}
use clickman.Client.Config.{Config}
use clickman.Client.Backoff.Float.{Float64}
use clickman.Client.Platform.{Platform}
use clickman.Client.Store.{Database, Tx, ◌>>=◌, pure, write}
use clickman.Client.Queue
use clickman.Client.Queue.Order.{IsOrdered, insert-IsOrdered}
use clickman.Client.Queue.Trim.{trim-drop}
use clickman.Client.Event.{Recorder, record_event}
use clickman.Client.Event.Record.{record_inv, record-IsOrdered, new_row}
use clickman.Client.Identity
use clickman.Client.Launch.{Release, events, last_launch, record_all, record_launch, remember}
use clickman.Client.Refine.{waiting_of, put, tracked, Changes, here, one, Refines, Refines-trans}

module _ (p : Platform) (f : Float64) (config : Config) (SendsAt : ℤ → Type 0) where
  -- A transaction that refines the queue wherever it succeeds.
  pub record RefinesTx {A : Type 0} (work : Tx A) : Type 0 where
    pub at :
        (db db' : Database) (a : A)
        → IsOrdered db
        → work db ≡ ok (a, db')
        → Refines p f config SendsAt db db'

  RefinesTx-bind :
      {A B : Type 0} (work : Tx A) (next : A → Tx B)
      → RefinesTx work
      → ((a : A) → RefinesTx (next a))
      → RefinesTx (work >>= next)
  unfolding ◌>>=◌
  RefinesTx-bind work next r rs = record {
    at = λ db db' b o h. elim (Result-cases (work db)) [
      | inl ((a, db₁), e) ↦
          Refines-trans p f config SendsAt db db₁ db' (r.at db db₁ a o e)
            (λ o₁. (rs a).at db₁ db' b o₁ (ground arith))
      | inr (e, failed) ↦ absurd (ground arith)
    ];
  }

  -- A change of the identity is none of the queue.
  same_queue :
      (db db' : Database)
      → db'.events ≡ db.events
      → db'.sequence ≡ db.sequence
      → IsOrdered db
      → Refines p f config SendsAt db db'
  same_queue db db' e s o =
      (rw (e, s) here, record { ascending = rw e o.ascending; within = rw (e, s) o.within })

  module _ (r : Recorder) (room : r.max_queue ≡ config.max_queue)
      (bound : config.max_queue ≤ i64_max) where
    pub RefinesTx-record_event :
        (event : Text) (properties : Fields) → RefinesTx (record_event p r event properties)
    unfolding Queue.insert
    RefinesTx-record_event event properties = record {
      at = λ db db' id o h.
          let (o', l) = record-IsOrdered p r event properties db db' id o (omega arith) h in
          let (traits, e) = record_inv p r event properties db db' id h in
          let row = new_row p r event properties traits db in
          let exact =
            e
            ∙ trim-drop r.max_queue _ (insert-IsOrdered row.created_at row.body db o)
                (omega arith) in
          (
            rw exact (
                subst
                  (λ n.
                    Changes p f config SendsAt (waiting_of db)
                      (put n row.created_at row.body (waiting_of db)))
                  (sym room)
                  (one p f config SendsAt (waiting_of db) _
                    (tracked row.created_at row.body (waiting_of db)))),
            o',
          );
    }

    RefinesTx-record_all : (events : List (Text × Fields)) → RefinesTx (record_all p r events)
    unfolding record_all pure
    RefinesTx-record_all [] = record {
      at = λ db db' a o h. same_queue db db' (ground arith) (ground arith) o;
    }
    RefinesTx-record_all ((event, properties) ∷ rest) =
        RefinesTx-bind (record_event p r event properties) (λ _. record_all p r rest)
          (RefinesTx-record_event event properties) (λ _. RefinesTx-record_all rest)

    RefinesTx-remember : (release : Release) → RefinesTx (remember release)
    unfolding remember
    RefinesTx-remember release = record {
      at = λ db db' a o h. same_queue db db' (ground arith) (ground arith) o;
    }

    pub RefinesTx-record_launch : (release : Release) → RefinesTx (record_launch p r release)
    unfolding record_launch
    RefinesTx-record_launch release = record {
      at = λ db db' a o h.
          (RefinesTx-bind (record_all p r (events (last_launch db) release)) (λ _. remember release)
              (RefinesTx-record_all (events (last_launch db) release))
              (λ _. RefinesTx-remember release)).at
            db db' a o h;
    }

  pub RefinesTx-identify : (external_id : Text) → RefinesTx (Identity.identify external_id)
  unfolding Identity.identify
  RefinesTx-identify external_id = record {
    at = λ db db' a o h. same_queue db db' (ground arith) (ground arith) o;
  }

  pub RefinesTx-reset : RefinesTx Identity.reset
  unfolding Identity.reset
  RefinesTx-reset = record {
    at = λ db db' a o h. same_queue db db' (ground arith) (ground arith) o;
  }

  pub RefinesTx-set_traits : (changes : Fields) → RefinesTx (Identity.set_traits p changes)
  unfolding Identity.set_traits
  RefinesTx-set_traits changes = record {
    at = λ db db' a o h. same_queue db db' (ground arith) (ground arith) o;
  }

  -- A transaction that fails leaves the queue.
  pub write-Refines :
      {A : Type 0} (work : Tx A) (db : Database)
      → RefinesTx work
      → IsOrdered db
      → Refines p f config SendsAt db (write work db).1
  unfolding write
  write-Refines work db r o = elim (Result-cases (work db)) [
    | inl ((a, db'), e) ↦ rw (e, write) (r.at db db' a o e)
    | inr (error, e) ↦ rw (e, write) (here, o)
  ]
