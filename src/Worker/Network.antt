-- ===== src/Worker/Network.antt =====
-- `Network` of rust/crates/clickman-e2e-worker/src/main.rs, the HTTP stack that the driver gives to its
-- client. `Reqwest` stands for the HTTP library: what comes of a request that is built, a response or the
-- text of an error, and `String::from_utf8_lossy`.
use mathlib.Core.List.{append-nil, append_assoc}
use clickman.Base.{ℕ, ◌≡◌, refl, ap, ◌∙◌, sym, Option, none, some, List, [], ◌∷◌, ◌++◌}
use clickman.Base.Text.{Text, text, as_bytes}
use clickman.Client.Sender.{Reply, response, unreachable, HttpResponse}
use clickman.Client.Sender
use clickman.Ingest.App.{Response}
use clickman.Protocol.Outcome.{Outcome, ok, err, panic}
use clickman.Wire.{over_wire}

-- The builder of `reqwest`.
pub record Built : Type 0 where
  pub url : Text
  pub body : List ℕ
  pub headers : List (Text × Text)

pub record Answered : Type 0 where
  pub status : ℕ
  pub retry_after : Option (List ℕ)

pub record Reqwest : Type 0 where
  pub execute : Built → Outcome Text Answered
  pub from_utf8_lossy : List ℕ → Text

abbrev pub header : Text × Text → Built → Built
header h built = record built { headers = built.headers ++ h ∷ [] }

-- The loop over the headers.
unfoldable pub with_headers : List (Text × Text) → Built → Built
with_headers [] built = built
with_headers (h ∷ headers) built = with_headers headers (header h built)

module _ (reqwest : Reqwest) where
  -- `retry_after`
  unfoldable pub retry_after : Answered → Option Text
  retry_after answered = elim answered.retry_after [
    | none ↦ none
    | some value ↦ some (reqwest.from_utf8_lossy value)
  ]

  unfoldable pub built : Sender.Request → Built
  unfolding with_headers
  built request =
      with_headers request.headers (record { url = request.url; body = request.body; headers = [] })

  abbrev pub reply_of : Outcome Text Answered → Reply
  unfolding retry_after
  reply_of (ok answered) =
      response (record { status = answered.status; retry_after = retry_after answered })
  reply_of (err message) = unreachable message
  reply_of panic = unreachable (text "")

  -- `Network::send`
  unfoldable pub send : Sender.Request → Reply
  unfolding built
  send request = reply_of (reqwest.execute (built request))

  -- What a response of the server is when it comes over HTTP.
  abbrev pub over_http : Response → Answered
  over_http r = record {
    status = r.status;
    retry_after = elim (over_wire r).retry_after [
      | none ↦ none
      | some value ↦ some (as_bytes value)
    ];
  }

  retry_after-bytes :
      (value : Option Text) (status : ℕ)
      → ((s : Text) → reqwest.from_utf8_lossy (as_bytes s) ≡ s)
      → retry_after (record {
        status = status;
        retry_after = elim value [ none ↦ none | some s ↦ some (as_bytes s) ];
      })
        ≡ value
  unfolding retry_after
  retry_after-bytes none status lossless = refl
  retry_after-bytes (some s) status lossless = ap some (lossless s)

  -- The reply of the driver's HTTP stack to an answer of the server is what `Wire` takes it to be.
  pub send-over_wire :
      (request : Sender.Request) (r : Response)
      → ((s : Text) → reqwest.from_utf8_lossy (as_bytes s) ≡ s)
      → reqwest.execute (built request) ≡ ok (over_http r)
      → send request ≡ response (over_wire r)
  unfolding send reply_of
  send-over_wire request r lossless h =
      ap reply_of h
      ∙ ap (λ value. response (record { status = r.status; retry_after = value }))
          (retry_after-bytes (over_wire r).retry_after r.status lossless)

  with_headers-append :
      (headers : List (Text × Text)) (built : Built)
      → with_headers headers built ≡ record built { headers = built.headers ++ headers }
  unfolding with_headers
  with_headers-append [] built = ap (λ hs. record built { headers = hs }) (sym (append-nil _))
  with_headers-append (h ∷ headers) built =
      with_headers-append headers (header h built)
      ∙ ap (λ hs. record built { headers = hs }) (append_assoc built.headers (h ∷ []) headers)

  -- Nothing of a request is lost on the way to the HTTP library.
  pub built_exact :
      (request : Sender.Request)
      → built request ≡ record { url = request.url; body = request.body; headers = request.headers }
  unfolding built
  built_exact request = with_headers-append request.headers _
