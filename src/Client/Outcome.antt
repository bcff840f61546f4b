-- ===== src/Client/Outcome.antt =====
-- rust/crates/clickman/src/outcome.rs
use clickman.Base.{ℕ, ◌≤◌, ◌≡◌, ◌⊎◌, ◌↔◌, ◌||◌, ◌&&◌, ◌==◌, leb, if◌then◌else◌, arith}

pub data Outcome : Type 0 where
  delivered refused retry : Outcome

unfoldable pub of : ℕ → Outcome
of status =
    if leb 200 status && leb status 299
    then delivered
    else if status == 400 || status == 413 || status == 415
    then refused
    else retry

-- A status is delivered exactly when it is a success, and refused exactly when it is one of the
-- three that the protocol names; so all else, no response (0) included, is tried again.
pub outcome_exact :
    (status : ℕ)
    → ((of status ≡ delivered) ↔ ((200 ≤ status) × (status ≤ 299)))
      × ((of status ≡ refused) ↔ ((status ≡ 400) ⊎ (status ≡ 413) ⊎ (status ≡ 415)))
unfolding of
outcome_exact status = (ground arith, ground arith)
