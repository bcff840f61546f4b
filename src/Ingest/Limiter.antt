-- ===== src/Ingest/Limiter.antt =====
-- rust/crates/clickman-ingest/src/limiter.rs. The `f64` arithmetic is that of the standard library, which
-- `Floats` stands for. An `Instant` and a `Duration` are counts of nanoseconds.
pub mod Clients
use clickman.Base.{ℕ, ◌-◌, ◌*◌, Option, none, some, List, [], ◌∷◌, length, keep, ltb, if◌then◌else◌}
use clickman.Base.Floats.{F64, Floats, f1, f20, f100}
use clickman.Base.Text.{Text, text_eq}

abbrev pub second : ℕ
second = 1_000_000_000

abbrev pub prune_above : ℕ
prune_above = 100_000

abbrev pub idle : ℕ
idle = 600 * second

pub record RateLimit : Type 0 where
  pub per_second : F64
  pub burst : F64

abbrev pub default_limit : RateLimit
default_limit = record { per_second = f20; burst = f100 }

-- The wait is a duration.
pub data Decision : Type 0 where
  allowed : Decision
  limited : ℕ → Decision

pub record Bucket : Type 0 where
  pub tokens : F64
  pub refreshed : ℕ

abbrev pub Buckets : Type 0
Buckets = List (Text × Bucket)

unfoldable pub find : Text → Buckets → Option Bucket
find client [] = none
find client ((c, bucket) ∷ buckets) = if text_eq c client then some bucket else find client buckets

-- The write through the entry, which is there.
unfoldable pub put : Text → Bucket → Buckets → Buckets
put client bucket [] = (client, bucket) ∷ []
put client bucket ((c, b) ∷ buckets) =
    if text_eq c client then (c, bucket) ∷ buckets else (c, b) ∷ put client bucket buckets

unfoldable pub prune : ℕ → Buckets → Buckets
prune now buckets =
    if ltb prune_above (length buckets)
    then keep (λ entry. ltb (now - entry.1.refreshed) idle) buckets
    else buckets

-- `entry(client).or_insert(…)`
abbrev pub or_insert : Option Bucket → RateLimit → ℕ → Bucket
or_insert (some bucket) limit now = bucket
or_insert none limit now = record { tokens = limit.burst; refreshed = now }

unfoldable pub refill : Floats → RateLimit → ℕ → Bucket → Bucket
refill a limit now bucket = record {
  tokens =
      a.least (a.add bucket.tokens (a.mul (a.as_secs (now - bucket.refreshed)) limit.per_second))
        limit.burst;
  refreshed = now;
}

abbrev pub wait_seconds : Floats → RateLimit → F64 → F64
wait_seconds a limit tokens = a.greatest (a.ceil (a.div (a.sub f1 tokens) limit.per_second)) f1

-- `Duration::from_secs_f64`, which may panic: `none`.
abbrev pub limited_for : Option ℕ → Option Decision
limited_for none = none
limited_for (some duration) = some (limited duration)

-- The test of a bucket that was refilled.
unfoldable pub spend : Floats → RateLimit → Bucket → Option Decision × Bucket
spend a limit bucket =
    if a.ge bucket.tokens f1
    then (some allowed, record bucket { tokens = a.sub bucket.tokens f1 })
    else (limited_for (a.from_secs (wait_seconds a limit bucket.tokens)), bucket)

-- One request on the bucket of its client.
unfoldable pub take : Floats → RateLimit → ℕ → Bucket → Option Decision × Bucket
unfolding refill spend
take a limit now bucket = spend a limit (refill a limit now bucket)

-- `RateLimiter::check`
unfoldable pub check : Floats → Text → RateLimit → ℕ → Buckets → Option Decision × Buckets
unfolding prune find take put
check a client limit now buckets =
    let kept = prune now buckets in
    let (decision, bucket) = take a limit now (or_insert (find client kept) limit now) in
    (decision, put client bucket kept)
