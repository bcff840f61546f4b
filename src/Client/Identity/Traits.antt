-- ===== src/Client/Identity/Traits.antt =====
-- How traits merge (protocol/fixtures/traits.json), and what the actor is after each operation.
use clickman.Base.{◌≡◌, ◌∙◌, not, Option, none, some, arith, if◌then◌else◌}
use clickman.Base.Text.{Text}
use clickman.Json.{Value, Fields, obj, is_null}
use clickman.Json.Map.{get, extend, Unique}
use clickman.Json.Laws.{get-extend, get-retain, extend-Unique, retain-Unique}
use clickman.Client.Error.{ok}
use clickman.Client.Platform.{Platform}
use clickman.Client.Store.{Database, ◌>>=◌}
use clickman.Client.Identity.{actor, merge, set_traits}

-- A trait that is not null.
abbrev pub unless_null : Option Value → Option Value
unless_null none = none
unless_null (some v) = if not (is_null v) then some v else none

abbrev or_else : Option Value → Option Value → Option Value
or_else (some v) before = some v
or_else none before = before

-- Where neither map has a key twice, under each key the merge holds the change if there is one and it is not null, nothing if the
-- change is null, and the stored trait if there is no change.
pub get-merge :
    (k : Text) (traits changes : Fields)
    → Unique traits
    → Unique changes
    → get k (merge traits changes)
      ≡ unless_null (elim (get k changes) [ some v ↦ some v | none ↦ get k traits ])
unfolding merge
get-merge k traits changes u w =
    get-retain (λ v. not (is_null v)) k (extend traits changes) (extend-Unique traits changes u)
    ∙ ground (arith, get-extend k traits changes w)

pub merge-Unique : (traits changes : Fields) → Unique traits → Unique (merge traits changes)
unfolding merge
merge-Unique traits changes u = retain-Unique _ _ (extend-Unique traits changes u)

-- After `set_traits` the actor has the merged traits and is who it was before, where the text of
-- the merged traits is read back as it was written.
pub actor-set_traits :
    (p : Platform) (db : Database) (traits changes : Fields)
    → p.parse_object db.identity.traits ≡ some traits
    → p.parse_object (p.render (obj (merge traits changes))) ≡ some (merge traits changes)
    → (set_traits p changes >>= λ _. actor p) db
      ≡ ok (
        record { external_id = db.identity.external_id; traits = merge traits changes },
        record db {
          identity = record db.identity { traits = p.render (obj (merge traits changes)) };
        },
      )
unfolding set_traits
actor-set_traits p db traits changes stored back = ground arith
