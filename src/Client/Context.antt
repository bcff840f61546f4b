-- ===== src/Client/Context.antt =====
-- rust/crates/clickman/src/context.rs
use clickman.Base.{if◌then◌else◌}
use clickman.Base.Text.{Text, text}
use clickman.Json.{Fields, str, obj, end, field}
use clickman.Json.Map.{insert, is_empty}
use clickman.Client.Platform.{Platform}

abbrev pub library_name : Text
library_name = text "clickman-rust"

unfoldable pub standard : Platform → Fields → Fields
standard p host =
    insert (text "library")
      (obj (field (text "name") (str library_name) (field (text "version") (str p.version) end)))
      host

unfoldable pub with_traits : Fields → Fields → Fields
with_traits standard traits =
    if is_empty traits then standard else insert (text "traits") (obj traits) standard
