-- ===== src/Client/Queue/Taken.antt =====
-- How many of the oldest events one batch takes (protocol/fixtures/batches.json), measured by the
-- bytes of the joined bodies, which is what `payload` sends.
use clickman.Base.{
  ℕ, zero, suc, ◌+◌, ◌≤◌, ◌<◌, ◌≡◌, refl, ◌≢◌, ◌∙◌, ◌⊎◌, List, [], ◌∷◌, length, take, take-take,
  min, ltb, arith, length-take, if◌then◌else◌,
}
use clickman.Base.Text.{Text, byte_length, byte_length-append}
use clickman.Client.Queue.{joined, taken_from, taken}

-- The bytes that further bodies add, a comma before each.
abbrev added : List Text → ℕ
added [] = 0
added (body ∷ bodies) = byte_length body + 1 + added bodies

byte_length-joined :
    (body : Text) (bodies : List Text)
    → byte_length (joined (body ∷ bodies)) ≡ byte_length body + added bodies
unfolding joined
byte_length-joined body [] = omega arith
byte_length-joined body (next ∷ bodies) =
    byte_length-append body (b',' ∷ joined (next ∷ bodies))
    ∙ omega (arith, byte_length-joined next bodies)

-- The loop past the first body: what it takes fits, and one more would not.
record Rest (max_bytes bytes n : ℕ) (bodies : List Text) : Type 0 where
  within : n ≤ length bodies
  fits : (n ≡ 0) ⊎ (bytes + added (take n bodies) ≤ max_bytes)
  maximal : (n ≡ length bodies) ⊎ (max_bytes < bytes + added (take (suc n) bodies))

taken_from-Rest :
    (max_bytes index bytes : ℕ) (bodies : List Text)
    → Rest max_bytes bytes (taken_from max_bytes (suc index) bytes bodies) bodies
unfolding taken_from
taken_from-Rest max_bytes index bytes [] = ground arith
taken_from-Rest max_bytes index bytes (body ∷ bodies) =
    ground (arith, taken_from-Rest max_bytes (suc index) (bytes + (byte_length body + 1)) bodies)

-- The first body, and then the loop.
first_and_Rest :
    (max_bytes bytes more n : ℕ) (body : Text) (bodies : List Text)
    → bytes ≡ byte_length body
    → Rest max_bytes bytes n (take more bodies)
    → (1 ≤ suc n)
      × (suc n ≤ min (suc more) (length (body ∷ bodies)))
      × ((suc n ≡ 1) ⊎ (byte_length (joined (take (suc n) (body ∷ bodies))) ≤ max_bytes))
      × ((suc n ≡ min (suc more) (length (body ∷ bodies)))
          ⊎ (max_bytes < byte_length (joined (take (suc (suc n)) (body ∷ bodies)))))
first_and_Rest max_bytes bytes more n body bodies e r = ground (
  arith,
  length-take more bodies,
  byte_length-joined body (take n bodies),
  byte_length-joined body (take (suc n) bodies),
  take-take n more bodies,
  take-take (suc n) more bodies,
)

-- Of bodies to send, a batch takes at most `max_events` of the first; it takes one at least, if the
-- limit allows any; their bytes joined by commas are within `max_bytes`, unless it is one body
-- alone; and it stops early only where one more body would be past `max_bytes`.
pub taken_exact :
    (bodies : List Text) (max_events max_bytes : ℕ)
    → bodies ≢ []
    → 0 < max_events
    → let n = taken bodies max_events max_bytes in
      (1 ≤ n)
      × (n ≤ min max_events (length bodies))
      × ((n ≡ 1) ⊎ (byte_length (joined (take n bodies)) ≤ max_bytes))
      × ((n ≡ min max_events (length bodies))
          ⊎ (max_bytes < byte_length (joined (take (suc n) bodies))))
unfolding taken
taken_exact [] max_events max_bytes ne pos = absurd (ne refl)
taken_exact bodies zero max_bytes ne pos = absurd (omega arith)
taken_exact (body ∷ bodies) (suc more) max_bytes ne pos =
    first_and_Rest max_bytes _ more _ body bodies (omega arith)
      (taken_from-Rest max_bytes 0 (0 + (byte_length body + 0)) (take more bodies))

taken_from-le :
    (max_bytes index bytes : ℕ) (bodies : List Text)
    → taken_from max_bytes index bytes bodies ≤ length bodies
unfolding taken_from
taken_from-le max_bytes index bytes [] = omega arith
taken_from-le max_bytes index bytes (body ∷ bodies) = ground (
  arith,
  taken_from-le max_bytes (suc index) (bytes + (byte_length body + (if ltb 0 index then 1 else 0)))
      bodies,
)

pub taken-le :
    (bodies : List Text) (max_events max_bytes : ℕ)
    → (taken bodies max_events max_bytes ≤ max_events)
      × (taken bodies max_events max_bytes ≤ length bodies)
unfolding taken
taken-le bodies max_events max_bytes =
    omega
      (arith, taken_from-le max_bytes 0 0 (take max_events bodies), length-take max_events bodies)
