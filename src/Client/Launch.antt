-- ===== src/Client/Launch.antt =====
-- rust/crates/clickman/src/launch.rs
pub mod Laws
use clickman.Base.{Bool, true, false, ◌&&◌, Option, none, some, List, [], ◌∷◌, if◌then◌else◌}
use clickman.Base.Text.{Text, text, text_eq}
use clickman.Json.{Value, Fields, str, bool, obj, end, field}
use clickman.Json.Map.{insert}
use clickman.Client.Error.{ok, err}
use clickman.Client.Platform.{Platform}
use clickman.Client.Store.{Identity, Database, Tx, ◌>>=◌, ◌>>◌, pure}
use clickman.Client.Event.{Recorder, record_event}

pub record Release : Type 0 where
  pub version : Text
  pub build : Text

abbrev pub release_eq : Release → Release → Bool
release_eq a b = text_eq a.version b.version && text_eq a.build b.build

unfoldable pub installed : Release → Fields
installed release =
    field (text "version") (str release.version) (field (text "build") (str release.build) end)

unfoldable pub updated : Release → Release → Fields
unfolding installed insert
updated last release =
    insert (text "previous_build") (str last.build)
      (insert (text "previous_version") (str last.version) (installed release))

abbrev pub opened : Text × Fields
opened = (text "app_opened", field (text "from_background") (bool false) end)

unfoldable pub events : Option Release → Release → List (Text × Fields)
unfolding installed updated
events none release = (text "app_installed", installed release) ∷ opened ∷ []
events (some last) release =
    if release_eq last release
    then opened ∷ []
    else (text "app_updated", updated last release) ∷ opened ∷ []

-- `version.zip(build)`
abbrev pub zip_release : Option Text → Option Text → Option Release
zip_release (some version) (some build) = some (record { version = version; build = build })
zip_release _ _ = none

unfoldable pub last_launch : Database → Option Release
last_launch db = zip_release db.identity.app_version db.identity.app_build

-- The loop over the events of a launch.
unfoldable pub record_all : Platform → Recorder → List (Text × Fields) → Tx Unit
unfolding record_event ◌>>=◌ pure
record_all p r [] = pure tt
record_all p r ((event, properties) ∷ rest) = do
  record_event p r event properties
  record_all p r rest

unfoldable pub remember : Release → Tx Unit
remember release db = ok (
  tt,
  record db {
    identity = record db.identity {
      app_version = some release.version;
      app_build = some release.build;
    };
  },
)

-- `launch::record`
unfoldable pub record_launch : Platform → Recorder → Release → Tx Unit
unfolding last_launch events record_all remember ◌>>=◌
record_launch p r release db =
    (record_all p r (events (last_launch db) release) >> remember release) db
