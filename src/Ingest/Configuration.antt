-- ===== src/Ingest/Configuration.antt =====
-- `Configuration` of rust/crates/clickman-ingest/src/main.rs. The environment gives a variable's text,
-- where it is set to Unicode text; `parse_address` stands for `SocketAddr::from_str`.
pub mod Numbers
use clickman.Base.{
  ℕ, ◌+◌, ◌-◌, ◌*◌, ◌^◌, Option, none, some, List, [], ◌∷◌, ◌++◌, leb, ◌==◌, if◌then◌else◌,
}
use clickman.Base.Text.{Text, text, is_ascii_digit}
use clickman.Client.Config.{from_secs}
use clickman.Protocol.Outcome.{Outcome, ok, err, ◌>>=◌, ok_or}

abbrev pub default_bind : Text
default_bind = text "127.0.0.1:4130"

abbrev pub default_pool_size : ℕ
default_pool_size = 4

abbrev pub default_settings_refresh_seconds : ℕ
default_settings_refresh_seconds = 30

abbrev pub u32_max : ℕ
u32_max = 2 ^ 32 - 1

abbrev pub u64_max : ℕ
u64_max = 2 ^ 64 - 1

pub record Configuration (Address : Type 0) : Type 0 where
  pub bind : Address
  pub database_url : Text
  pub pool_size : ℕ
  pub settings_refresh : ℕ

-- `from_str` of an unsigned integer: digits, after a plus sign perhaps, of a number within its bound.
unfoldable pub digits_within : ℕ → ℕ → Text → Option ℕ
digits_within bound n [] = some n
digits_within bound n (d ∷ s) =
    let rest = digits_within bound (n * 10 + (d - b'0')) s in
    if is_ascii_digit d then (if leb (n * 10 + (d - b'0')) bound then rest else none) else none

unfoldable pub unsigned : ℕ → Text → Option ℕ
unfolding digits_within
unsigned bound [] = none
unsigned bound (c ∷ []) = digits_within bound 0 (c ∷ [])
unsigned bound (c ∷ d ∷ s) =
    if c == b'+' then digits_within bound 0 (d ∷ s) else digits_within bound 0 (c ∷ d ∷ s)

-- `number`, for a type with this largest value.
unfoldable pub number : ℕ → Text → ℕ → Option Text → Outcome Text ℕ
unfolding unsigned
number bound name default none = ok default
number bound name default (some value) =
    ok_or (name ++ text " must be a positive number") (unsigned bound value)

abbrev pub or_default : Text → Option Text → Text
or_default default none = default
or_default default (some value) = value

-- `Configuration::from_env`
unfoldable pub from_env :
    {A : Type 0} → (Text → Option A) → (Text → Option Text) → Outcome Text (Configuration A)
unfolding number
from_env parse_address var = do
  bind ←
      ok_or (text "CLICKMAN_INGEST_BIND must be host:port")
        (parse_address (or_default default_bind (var (text "CLICKMAN_INGEST_BIND"))))
  url ← ok_or (text "DATABASE_URL is required by clickman-ingest") (var (text "DATABASE_URL"))
  size ←
      number u32_max (text "CLICKMAN_INGEST_DATABASE_POOL") default_pool_size
        (var (text "CLICKMAN_INGEST_DATABASE_POOL"))
  refresh ←
      number u64_max (text "CLICKMAN_INGEST_SETTINGS_REFRESH") default_settings_refresh_seconds
        (var (text "CLICKMAN_INGEST_SETTINGS_REFRESH"))
  ok (record {
    bind = bind;
    database_url = url;
    pool_size = size;
    settings_refresh = from_secs refresh;
  })
