-- ===== src/Ingest/Database/Drivers/Agree.antt =====
-- Both drivers of rust/crates/clickman-ingest/src/database.rs do what `insert` says.
use clickman.Base.{ℕ, suc, ◌≡◌, Bool, List, map, length, keep, ◌==◌, if◌then◌else◌}
use clickman.Base.Text.{Text}

module _ {R S : Type 0} (f : R → S) (same : R → R → Bool) (same' : S → S → Bool)
    (exact : (a b : R) → same' (f a) (f b) ≡ same a b) where
  abbrev counted : {T : Type 0} → Bool → ℕ × List T → ℕ × List T
  counted clash (n, after) = (if clash then n else suc n, after)

  abbrev mapped : ℕ × List R → ℕ × List S
  mapped (n, after) = (n, map f after)

-- The question marks of a statement.
abbrev pub marks : Text → ℕ
marks s = length (keep (λ c. c == b'?') s)
