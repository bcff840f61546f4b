-- ===== src/Ingest/Body.antt =====
-- rust/crates/clickman-ingest/src/body.rs. `gunzip` stands for `GzDecoder`: the bytes that it decodes
-- before it ends or breaks, and the text of the error where it breaks after them.
use clickman.Base.{
  ℕ, ◌+◌, ◌*◌, ◌≤◌, ◌≡◌, Bool, true, false, ◌||◌, ◌&&◌, Option, none, some, List, map, length, take,
  ltb, leb, arith, if◌then◌else◌, Bool-cases, inl, inr, ◌++◌,
}
use clickman.Base.Text.{Text, text, text_eq, is_blank, trim}

abbrev pub max_wire_bytes : ℕ
max_wire_bytes = 1024 * 1024

abbrev pub max_decompressed_bytes : ℕ
max_decompressed_bytes = 4 * 1024 * 1024

pub data BodyError : Type 0 where
  too_large : BodyError
  unsupported_encoding : BodyError
  malformed : Text → BodyError

pub data Decoded : Type 0 where
  body : List ℕ → Decoded
  refused : BodyError → Decoded

-- The decoder's output, and the error after it.
pub record Gunzip : Type 0 where
  pub output : List ℕ
  pub broken : Option Text

-- `char::to_ascii_lowercase`
abbrev pub lower : ℕ → ℕ
lower c = if leb b'A' c && leb c b'Z' then c + 32 else c

-- `take(limit).read_to_end`: what comes after the limit is not read, so neither is an error there.
unfoldable pub read_limited : ℕ → Gunzip → Decoded
read_limited limit gunzip =
    if leb limit (length gunzip.output)
    then body (take limit gunzip.output)
    else elim gunzip.broken [
      | none ↦ body gunzip.output
      | some message ↦ refused (malformed (text "the gzip body is broken: " ++ message))
    ]

abbrev pub check_size : Decoded → Decoded
check_size (body bytes) =
    if ltb max_decompressed_bytes (length bytes) then refused too_large else body bytes
check_size (refused e) = refused e

check_size-le :
    (d : Decoded) (bytes : List ℕ)
    → check_size d ≡ body bytes
    → length bytes ≤ max_decompressed_bytes
check_size-le (body b) bytes h = ground arith
check_size-le (refused e) bytes h = absurd (ground arith)

module _ (gunzip : List ℕ → Gunzip) where
  unfoldable pub decode_as : Text → List ℕ → Decoded
  unfolding read_limited
  decode_as encoding bytes =
      if is_blank encoding || text_eq encoding (text "identity")
      then body bytes
      else if text_eq encoding (text "gzip") || text_eq encoding (text "x-gzip")
      then check_size (read_limited (max_decompressed_bytes + 1) (gunzip bytes))
      else refused unsupported_encoding

  unfoldable pub decode : Option Text → List ℕ → Decoded
  unfolding decode_as
  decode none bytes = body bytes
  decode (some encoding) bytes = decode_as (map lower (trim encoding)) bytes

  decode_as-le :
      (encoding : Text) (bytes decoded : List ℕ)
      → length bytes ≤ max_wire_bytes
      → decode_as encoding bytes ≡ body decoded
      → length decoded ≤ max_decompressed_bytes
  unfolding decode_as
  decode_as-le encoding bytes decoded small h =
      elim (Bool-cases (is_blank encoding || text_eq encoding (text "identity"))) [
        | inl e ↦ plain (rw e at h)
        | inr e ↦
            go (text_eq encoding (text "gzip") || text_eq encoding (text "x-gzip")) (rw e at h)
      ]
    where
      plain : body bytes ≡ body decoded → length decoded ≤ max_decompressed_bytes
      plain same = ground arith

      go :
          (zipped : Bool)
          → (if zipped
              then check_size (read_limited (max_decompressed_bytes + 1) (gunzip bytes))
              else refused unsupported_encoding)
            ≡ body decoded
          → length decoded ≤ max_decompressed_bytes
      go true same =
          check_size-le (read_limited (max_decompressed_bytes + 1) (gunzip bytes)) decoded same
      go false same = absurd (ground arith)

  -- A body that came in within the wire limit is decoded to no more than the decompressed limit.
  pub decode_bounded :
      (encoding : Option Text) (bytes decoded : List ℕ)
      → length bytes ≤ max_wire_bytes
      → decode encoding bytes ≡ body decoded
      → length decoded ≤ max_decompressed_bytes
  unfolding decode
  decode_bounded none bytes decoded small h = ground arith
  decode_bounded (some encoding) bytes decoded small h =
      decode_as-le (map lower (trim encoding)) bytes decoded small h
