-- ===== src/Worker/Tests.antt =====
-- The theorem about the worker at a concrete line.
use clickman.Base.{◌≡◌, ◌≤◌, refl, List, [], ◌∷◌, map, length}
use clickman.Base.Int.{ℤ, pos}
use clickman.Base.Text.{Text, text}
use clickman.Json.{null, str, obj, end, field}
use clickman.Json.Map.{get}
use clickman.Client.Error
use clickman.Client.Config.{Config}
use clickman.Client.Store.{Database}
use clickman.Client.Sender.{Attempt}
use clickman.Client.App.{ClickMan}
use clickman.Client.Tests.{platform, float, store}
use clickman.Protocol.Outcome.{ok}
use clickman.Worker.{Reading, serve}
use clickman.Worker.Start.{start}
use clickman.Worker.Main.{main, ready, lines_of, main_framed}

abbrev reading : Reading
reading = record {
  message = λ e. text "failed";
  from_str = λ line. ok (
      obj (
        field (text "command") (str line)
          (field (text "event") (str (text "x")) (field (text "properties") null end))));
}

abbrev open_store : Text → Error.Result Database
open_store path = Error.ok store

abbrev arguments : List Text
arguments = text "http://h/" ∷ text "key" ∷ text "queue.db" ∷ []

abbrev commands : List (Text × ℤ × List (Attempt float))
commands = (text "track", pos 0, []) ∷ (text "pending", pos 0, []) ∷ []

-- The line that it is ready, and an answer for each command.
abbrev output : Text
output = text "{}\n{}\n{}\n"

starts :
    main platform float reading (text "linux") open_store arguments (pos 0) commands ≡ ok output
unfolding main serve get
starts = refl

main_framed_example :
    (config : Config) × (c : ClickMan) × (start platform reading
        (text "linux")
        open_store
        arguments
        (pos 0)
      ≡ ok (config, c))
    × (lines_of output
        ≡ (map platform.render (ready ∷ (serve platform config float reading commands c).0), []))
    × (length (serve platform config float reading commands c).0 ≤ length commands)
main_framed_example =
    main_framed platform float reading (text "linux") open_store arguments (pos 0) commands output
      (λ v. refl) starts
