-- ===== src/Ingest/Tests/Serving.antt =====
-- The theorems about the running server at concrete inputs.
use clickman.Base.{All, ◌+◌, ◌∷◌, ◌≡◌, refl, inr, true, Option, some, []}
use clickman.Base.Int.{ℤ, pos}
use clickman.Base.Text.{Text}
use clickman.Json.{Value}
use clickman.Protocol.Tests.{externals}
use clickman.Ingest.Database.{has_id, insert}
use clickman.Ingest.Database.Commute.{insert_commutes}
use clickman.Ingest.Settings.{Published, Settings, default_published, from_published}
use clickman.Protocol.Batch.{default_limits}
use clickman.Ingest.Settings.Cell.{IsPublished}
use clickman.Ingest.App.Answers.{Promises}
use clickman.Ingest.Server.{Flight, Server, begin, arrive, land, finish}
use clickman.Ingest.Server.Runs.{
  arrives, lands, Reach, here, then, ServerInv, Kept, Reach-Kept, Reach-answers,
}
use clickman.Ingest.Server.Origins.{Known, Reach-Known}
use clickman.Ingest.Tests.{
  published, event, stored, stored-Distinct, request, moment, state, settings, gunzip,
}

abbrev same : Text → Text
same s = s

abbrev days : ℤ → Option ℤ
days n = some default_limits.max_event_age

abbrev parse : Value → Option Published
parse v = some default_published

-- The settings in force, with one write key.
abbrev known : Settings
known = record settings { fragments = published.fragments }

known-IsPublished : IsPublished same days parse known
unfolding from_published
known-IsPublished = inr (published, refl)

abbrev first : Server
first = record { settings = known; app = state; flights = []; refreshing = true }

first-ServerInv : ServerInv same days parse first
first-ServerInv = record { distinct = stored-Distinct; current = known-IsPublished; snapshots = tt }

abbrev arrived : Server
arrived = arrive externals gunzip same request moment first

abbrev under_way : Flight
under_way = (begin externals gunzip same known request moment state).0

abbrev answered : Server
answered = land externals gunzip same under_way [] true arrived

arrived-Reach : Reach externals gunzip same same days parse first arrived
arrived-Reach = then first arrived here (arrives first request moment)

answered-Reach : Reach externals gunzip same same days parse first answered
unfolding arrive
answered-Reach = then arrived answered arrived-Reach (lands arrived [] [] under_way true refl)

Reach-Kept_example : Kept externals gunzip same same days parse first answered
Reach-Kept_example =
    Reach-Kept externals gunzip same same days parse first answered answered-Reach first-ServerInv

Reach-answers_example :
    IsPublished same days parse under_way.settings
    × Promises externals under_way.settings under_way.moment.received_at
        (finish externals gunzip same under_way true arrived.app.rows).0
        arrived.app.rows
        (finish externals gunzip same under_way true arrived.app.rows).1
unfolding arrive
Reach-answers_example =
    Reach-answers externals gunzip same same days parse first arrived [] [] under_way true
      arrived-Reach first-ServerInv refl

Reach-Known_example : All (Known externals gunzip same same days parse stored) answered.app.rows
Reach-Known_example =
    Reach-Known externals gunzip same same days parse first answered answered-Reach first-ServerInv

insert_commutes_example :
    (has_id 2 (insert (event 2 ∷ []) (pos 2) (insert (event 1 ∷ event 2 ∷ []) (pos 1) stored).1).1
      ≡ has_id 2
          (insert (event 1 ∷ event 2 ∷ []) (pos 1) (insert (event 2 ∷ []) (pos 2) stored).1).1)
    × ((insert (event 1 ∷ event 2 ∷ []) (pos 1) stored).0
          + (insert (event 2 ∷ []) (pos 2) (insert (event 1 ∷ event 2 ∷ []) (pos 1) stored).1).0
        ≡ (insert (event 2 ∷ []) (pos 2) stored).0
          + (insert (event 1 ∷ event 2 ∷ []) (pos 1) (insert (event 2 ∷ []) (pos 2) stored).1).0)
insert_commutes_example =
    insert_commutes (event 1 ∷ event 2 ∷ []) (event 2 ∷ []) (pos 1) (pos 2) stored 2 stored-Distinct
