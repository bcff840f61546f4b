-- ===== src/Wire/Refusal.antt =====
-- A batch that the server cannot read as JSON: `send_next` of rust/crates/clickman/src/sender.rs against
-- `batch` of rust/crates/clickman-ingest/src/app.rs and `normalize` of
-- rust/crates/clickman-protocol/src/batch.rs.
use clickman.Base.{◌++◌}
use clickman.Base.Text.{Text, text}
use clickman.Client.Config.{Config}
use clickman.Client.Platform.{Platform}
use clickman.Client.Queue.{Batch}
use clickman.Client.Sender
use clickman.Protocol.Outcome
use clickman.Ingest.Settings.{Settings}
use clickman.Ingest.App
use clickman.Ingest.App.{Response}

abbrev pub not_json : Text → Text
not_json message = text "the body is not JSON: " ++ message
