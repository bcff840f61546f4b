-- ===== src/Worker/Start.antt =====
-- `start` of rust/crates/clickman-e2e-worker/src/main.rs; `os` is `std::env::consts::OS`, and
-- `open_store` opens the store at a path.
use clickman.Base.{◌++◌, List, [], ◌∷◌, length}
use clickman.Base.Int.{ℤ}
use clickman.Base.Text.{Text, text}
use clickman.Base.Decimal.{decimal}
use clickman.Json.{Value, str, obj, end, field}
use clickman.Client.Error
use clickman.Client.Config.{Config, new}
use clickman.Client.Platform.{Platform}
use clickman.Client.Store.{Database}
use clickman.Client.App.{ClickMan}
use clickman.Client.App as App
use clickman.Protocol.Outcome.{Outcome, ok, err, ◌>>=◌}
use clickman.Worker.{Reading}

unfoldable pub usage : List Text → Text
usage arguments =
    text "usage: clickman-e2e-worker <endpoint> <write-key> <store-path>, got "
    ++ (decimal (length arguments) ++ text " arguments")

-- `context`, on a host whose operating system has this name
unfoldable pub context : Text → Value
context os = obj (
    field (text "app") (obj (field (text "name") (str (text "clickman-e2e-worker")) end))
      (field (text "os") (obj (field (text "name") (str os) end)) end))

module _ (p : Platform) (reading : Reading) (os : Text)
    (open_store : Text → Error.Result Database) where
  abbrev pub or_failure : {A : Type 0} → Error.Result A → Outcome Text A
  or_failure (Error.ok a) = ok a
  or_failure (Error.err e) = err (reading.message e)

  -- `clickman.set_context(context())?` and `clickman.app_launched("e2e", "1")?`
  unfoldable pub prepared : Config → ℤ → ClickMan → Outcome Text ClickMan
  unfolding ◌>>=◌ context App.set_context App.app_launched
  prepared config now c =
      let (described, c₁) = App.set_context p config (context os) c in
      let (launched, c₂) = App.app_launched p config (text "e2e") (text "1") now c₁ in
      do with_context ← or_failure described; with_launch ← or_failure launched; ok c₂

  -- `start`
  unfoldable pub start : List Text → ℤ → Outcome Text (Config × ClickMan)
  unfolding ◌>>=◌ prepared usage App.open_with
  start (endpoint ∷ write_key ∷ store ∷ []) now = do
    let config = new endpoint write_key store
    db ← or_failure (open_store store)
    c ← prepared config now (App.open_with p config db)
    ok (config, c)
  start arguments now = err (usage arguments)
