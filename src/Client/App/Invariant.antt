-- ===== src/Client/App/Invariant.antt =====
-- The invariant of the client's store, and that no call of the client breaks it.
use clickman.Base.{ℕ, ◌≤◌, ◌≡◌, inl, inr, Bool, List, [], ◌∷◌, length, arith, length-keep-le}
use clickman.Base.Int.{i64_max}
use clickman.Base.Text.{Text}
use clickman.Json.{Fields}
use clickman.Client.Error.{ok, Result-cases}
use clickman.Client.Platform.{Platform}
use clickman.Client.Store.{Row, Database, Tx, ◌>>=◌}
use clickman.Client.Queue.{delete}
use clickman.Client.Queue.Order.{IsOrdered, delete-IsOrdered}
use clickman.Client.Event.{Recorder, record_event}
use clickman.Client.Event.Record.{record-IsOrdered}
use clickman.Client.Launch.{Release, events, last_launch, record_all, record_launch, remember}

-- The queue is in order and holds at most `max_queue` events.
pub record Inv (max_queue : ℕ) (db : Database) : Type 0 where
  pub ordered : IsOrdered db
  pub bounded : length db.events ≤ max_queue

pub delete-Inv :
    (max_queue : ℕ) (p : Row → Bool) (db : Database)
    → Inv max_queue db
    → Inv max_queue (delete p db)
unfolding delete
delete-Inv max_queue p db v = record {
  ordered = delete-IsOrdered p db v.ordered;
  bounded = omega (arith, length-keep-le _ db.events, v.bounded);
}

-- A transaction that keeps the invariant wherever it succeeds.
pub record Keeps {A : Type 0} (max_queue : ℕ) (work : Tx A) : Type 0 where
  pub at :
      (db db' : Database) (a : A) → Inv max_queue db → work db ≡ ok (a, db') → Inv max_queue db'

module _ {A B : Type 0} (max_queue : ℕ) where
  Keeps-bind :
      (work : Tx A) (next : A → Tx B)
      → Keeps max_queue work
      → ((a : A) → Keeps max_queue (next a))
      → Keeps max_queue (work >>= next)
  unfolding ◌>>=◌
  Keeps-bind work next k ks = record {
    at = λ db db' b v h. elim (Result-cases (work db)) [
      | inl ((a, db₁), e) ↦ (ks a).at db₁ db' b (k.at db db₁ a v e) (ground arith)
      | inr (e, failed) ↦ absurd (ground arith)
    ];
  }

-- A transaction that writes only the identity.
pub same_queue-Inv :
    (max_queue : ℕ) (db db' : Database)
    → db'.events ≡ db.events
    → db'.sequence ≡ db.sequence
    → Inv max_queue db
    → Inv max_queue db'
same_queue-Inv max_queue db db' e s v = record {
  ordered = record { ascending = rw e v.ordered.ascending; within = rw (e, s) v.ordered.within };
  bounded = rw e v.bounded;
}

module _ (p : Platform) (r : Recorder) (bound : r.max_queue ≤ i64_max) where
  pub Keeps-record_event :
      (event : Text) (properties : Fields) → Keeps r.max_queue (record_event p r event properties)
  Keeps-record_event event properties = record {
    at = λ db db' id v h.
        let (o, l) = record-IsOrdered p r event properties db db' id v.ordered bound h in
        record { ordered = o; bounded = omega (arith, l) };
  }

  Keeps-record_all : (events : List (Text × Fields)) → Keeps r.max_queue (record_all p r events)
  unfolding record_all
  Keeps-record_all [] = record {
    at = λ db db' a v h. same_queue-Inv r.max_queue db db' (ground arith) (ground arith) v;
  }
  Keeps-record_all ((event, properties) ∷ rest) =
      Keeps-bind r.max_queue (record_event p r event properties) (λ _. record_all p r rest)
        (Keeps-record_event event properties) (λ _. Keeps-record_all rest)

  Keeps-remember : (release : Release) → Keeps r.max_queue (remember release)
  unfolding remember
  Keeps-remember release = record {
    at = λ db db' a v h. same_queue-Inv r.max_queue db db' (ground arith) (ground arith) v;
  }

  pub Keeps-record_launch : (release : Release) → Keeps r.max_queue (record_launch p r release)
  unfolding record_launch
  Keeps-record_launch release = record {
    at = λ db db' a v h.
        (Keeps-bind r.max_queue (record_all p r (events (last_launch db) release))
            (λ _. remember release) (Keeps-record_all (events (last_launch db) release))
            (λ _. Keeps-remember release)).at
          db db' a v h;
  }
