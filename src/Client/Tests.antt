-- ===== src/Client/Tests.antt =====
-- Test data for the theorems about the client crate at concrete inputs: a store of three events, a platform whose
-- functions are constant or nearly so, and floating point numbers as tenths.
pub mod Queueing
pub mod Sending
pub mod Interleaving
pub mod Refining
use clickman.Base.{
  ℕ, zero, suc, ◌+◌, ◌*◌, ◌-◌, ◌/◌, ◌≤◌, ◌≡◌, refl, inl, inr, ◌⊎◌, Bool, true, false, Option, none,
  some, List, [], ◌∷◌, ◌++◌, length, take, drop, arith, All, min, max,
}
use clickman.Base.Int.{ℤ, pos, i64_max}
use clickman.Base.Text.{Text, text}
use clickman.Base.Decimal.{decimal}
use clickman.Json.{Value, Fields, null, bool, number, str, arr, obj, end, field}
use clickman.Client.Config
use clickman.Client.Config.{Config}
use clickman.Client.Clock.{Civil}
use clickman.Client.Platform.{Platform}
use clickman.Client.Backoff.Float.{Float64, Float64Laws}
use clickman.Client.Store.{Row, Identity, Database, anonymous}
use clickman.Client.Queue.Order.{IsOrdered}

abbrev pub row : ℕ → Row
row n = record { seq = n; created_at = pos (n * 1000); body = text "{}" }

abbrev pub rows : List Row
rows = row 1 ∷ row 2 ∷ row 3 ∷ []

abbrev pub store : Database
store = record { events = rows; sequence = 3; identity = anonymous }

abbrev pub config : Config
config = Config.new (text "http://h/") (text "key") (text "queue.db")

abbrev pub platform : Platform
platform = record {
  render = λ _. text "{}";
  parse_object = λ _. some end;
  civil = λ _. record {
    year = 2026;
    month = 1;
    day = 2;
    hour = 3;
    minute = 4;
    second = 5;
    millisecond = 6;
  };
  now_v7 = decimal;
  version = text "1";
  compress = λ s. some s;
}

abbrev pub float : Float64
float = record {
  F = ℕ;
  le = ◌≤◌;
  of_ℕ = λ n. 10 * n;
  tenths = λ t. t;
  add = λ a b. a + b;
  mul = λ a b. a * b / 10;
  trunc = λ a. a / 10;
}

pub store-IsOrdered : IsOrdered store
store-IsOrdered = record {
  ascending = (omega arith, (omega arith, (omega arith, tt)));
  within = (omega arith, (omega arith, (omega arith, tt)));
}

mul_mono : (a b r : ℕ) → a ≤ b → a * r ≤ b * r
mul_mono a b r h = let parts : b ≡ a + (b - a) = omega arith in rw parts (omega arith)

mul_le : (a b c d : ℕ) → a ≤ b → c ≤ d → a * c ≤ b * d
mul_le a b c d h k = omega (arith, mul_mono a b c h, mul_mono c d b k)

pub float_laws : Float64Laws float
float_laws = record {
  le_refl = λ a. omega arith;
  add_mono = λ a b d e h k. omega arith;
  mul_mono = λ a b d e h k. omega (arith, mul_le a b d e h k);
  trunc_mono = λ a b h. omega arith;
  low_exact = λ s h. omega arith;
  high_exact = λ s h. omega arith;
}
