-- ===== src/Wire/Carriage.antt =====
-- What lies between `send_next` of rust/crates/clickman/src/sender.rs and `batch` of
-- rust/crates/clickman-ingest/src/app.rs: HTTP, gzip and the reading of JSON.
use clickman.Base.{
  ℕ, ◌+◌, ◌≤◌, ◌≡◌, sym, ap, ◌∙◌, inl, inr, Option, none, some, List, [], ◌∷◌, map, length, take,
  length-take, take_all, leb, if◌then◌else◌, Bool-cases, arith,
}
use clickman.Base.Text.{Text, text, text_eq, as_bytes, trim}
use clickman.Json.{Value, Items, Fields, nil, cons, obj, arr}
use clickman.Json.Map.{get}
use clickman.Client.Platform.{Platform}
use clickman.Client.Queue.{Batch, payload}
use clickman.Client.Sender
use clickman.Client.Sender.{
  Attempt, World, Reply, response, unreachable, answer_of, post, settle, settle_as, deliver,
  send_taken, reserve, send_next, headers,
}
use clickman.Protocol.Outcome
use clickman.Protocol.Batch.{Externals}
use clickman.Ingest.Body.{
  body, Gunzip, decode, read_limited, check_size, max_decompressed_bytes, lower,
}
use clickman.Ingest.App
use clickman.Ingest.App.{Response, AppState, Moment, batch}
use clickman.Wire.{over_wire}

-- The connection of a handler that panics is closed without an answer.
abbrev pub replied : Option Response → Reply
replied (some r) = response (over_wire r)
replied none = unreachable (text "closed")

-- The first header of a name, in whatever case.
unfoldable pub find_header : Text → List (Text × Text) → Option Text
find_header name [] = none
find_header name ((key, value) ∷ headers) =
    if text_eq (map lower key) (map lower name) then some value else find_header name headers

-- What HTTP carries of a request: the two headers that the server reads, and the body, whole where a
-- limit allows.
pub record Carried (sent : Sender.Request) (arrived : App.Request) : Type 0 where
  pub authorization : arrived.authorization ≡ find_header (text "Authorization") sent.headers
  pub content_encoding :
      arrived.content_encoding ≡ find_header (text "Content-Encoding") sent.headers
  pub to_bytes :
      (limit : ℕ)
      → arrived.to_bytes limit ≡ (if leb (length sent.body) limit then some sent.body else none)

pub read_limited-whole :
    (limit : ℕ) (output : List ℕ)
    → read_limited limit (record { output = output; broken = none }) ≡ body (take limit output)
unfolding read_limited
read_limited-whole limit output = elim (Bool-cases (leb limit (length output))) [
  | inl e ↦ rw e
  | inr e ↦ rw e (ap body (sym (take_all limit output (ground arith))))
]

check_size-body :
    (d bytes : List ℕ)
    → check_size (body d) ≡ body bytes
    → (d ≡ bytes) × (length d ≤ max_decompressed_bytes)
check_size-body d bytes h = ground arith

-- What is decoded from a whole gzip body, where it is not too large, is what was compressed.
pub decode-gzip :
    (gunzip : List ℕ → Gunzip) (wire plain bytes : List ℕ)
    → gunzip wire ≡ record { output = plain; broken = none }
    → decode gunzip (some (text "gzip")) wire ≡ body bytes
    → bytes ≡ plain
unfolding decode trim
decode-gzip gunzip wire plain bytes whole h =
    let (same, small) = check_size-body (take (max_decompressed_bytes + 1) plain) bytes (
      sym (
        ap check_size (
          ap (read_limited (max_decompressed_bytes + 1)) whole
          ∙ read_limited-whole (max_decompressed_bytes + 1) plain))
      ∙ h) in
    sym same
    ∙ take_all (max_decompressed_bytes + 1) plain
        (omega (arith, length-take (max_decompressed_bytes + 1) plain, small))

-- The values that the bodies of a batch are read as, one by one.
abbrev pub Parsed : (List ℕ → Outcome.Outcome Text Value) → List Text → Items → Type 0
Parsed from_slice [] nil = Unit {0}
Parsed from_slice [] (cons value values) = ⊥
Parsed from_slice (b ∷ bodies) nil = ⊥
Parsed from_slice (b ∷ bodies) (cons value values) =
    (from_slice (as_bytes b) ≡ Outcome.ok value) × Parsed from_slice bodies values

-- What the platform and the server call, at the payload of a batch: its gzip body is decoded to its
-- bytes, and where its bodies are JSON and the whole is read as an object, the array under `batch` has
-- the values of the bodies.
pub record Formats (p : Platform) (x : Externals) (gunzip : List ℕ → Gunzip) (b : Batch)
    (sent_at : Text) : Type 0 where
  pub whole :
      (wire : List ℕ)
      → p.compress (payload b sent_at) ≡ some wire
      → gunzip wire ≡ record { output = as_bytes (payload b sent_at); broken = none }
  pub joined :
      (values : Items) (root : Fields)
      → Parsed x.from_slice b.bodies values
      → x.from_slice (as_bytes (payload b sent_at)) ≡ Outcome.ok (obj root)
      → get (text "batch") root ≡ some (arr values)
