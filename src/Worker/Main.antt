-- ===== src/Worker/Main.antt =====
-- `main` and `emit` of rust/crates/clickman-e2e-worker/src/main.rs: what the driver writes to its standard
-- output, which takes every write.
use mathlib.Core.List.{append-nil, append_assoc}
use clickman.Base.{
  ℕ, ◌≡◌, refl, sym, ap, ◌∙◌, Bool, true, false, not, List, [], ◌∷◌, ◌++◌, map, all, length, ◌≤◌,
  ◌==◌, if◌then◌else◌, arith,
}
use clickman.Base.Int.{ℤ}
use clickman.Base.Text.{Text, text}
use clickman.Json.{Value, bool, str, obj, end, field}
use clickman.Client.Error
use clickman.Client.Config.{Config}
use clickman.Client.Backoff.Float.{Float64}
use clickman.Client.Platform.{Platform}
use clickman.Client.Store.{Database}
use clickman.Client.Sender.{Attempt}
use clickman.Client.App.{ClickMan}
use clickman.Protocol.Outcome.{Outcome, ok, ◌>>=◌, with-ok, ok-inj}
use clickman.Worker.{Reading, answer, serve}
use clickman.Worker.Start.{start}

-- `writeln!`
unfoldable pub emit : Platform → Value → Text → Text
emit p line out = out ++ (p.render line ++ b'\n' ∷ [])

unfoldable pub emit_all : Platform → List Value → Text → Text
unfolding emit
emit_all p [] out = out
emit_all p (line ∷ lines) out = emit_all p lines (emit p line out)

abbrev pub ready : Value
ready = obj (field (text "ready") (bool true) (field (text "language") (str (text "rust")) end))

-- What the other side of the pipe reads, a line at a time: the lines, and what follows the last of them.
abbrev pub add_char : ℕ → List Text × Text → List Text × Text
add_char c (lines, rest) =
    if c == b'\n'
    then ([] ∷ lines, rest)
    else elim lines [ [] ↦ ([], c ∷ rest) | line ∷ later ↦ ((c ∷ line) ∷ later, rest) ]

unfoldable pub lines_of : Text → List Text × Text
lines_of [] = ([], [])
lines_of (c ∷ s) = add_char c (lines_of s)

abbrev pub one_line : Text → Bool
one_line = all (λ c. not (c == b'\n'))

lines_of-line :
    (s t : Text)
    → one_line s ≡ true
    → lines_of (s ++ b'\n' ∷ t) ≡ (s ∷ (lines_of t).0, (lines_of t).1)
unfolding lines_of
lines_of-line [] t h = refl
lines_of-line (c ∷ s) t h =
    let other : c == b'\n' ≡ false = ground arith in
    ap (add_char c) (lines_of-line s t (ground arith)) ∙ rw other refl

emit_all-append :
    (p : Platform) (lines : List Value) (out : Text)
    → emit_all p lines out ≡ out ++ emit_all p lines []
unfolding emit_all
emit_all-append p [] out = sym (append-nil out)
emit_all-append p (line ∷ lines) out =
    emit_all-append p lines (emit p line out)
    ∙ (append_assoc out (p.render line ++ b'\n' ∷ []) (emit_all p lines [])
        ∙ ap (◌++◌ out) (sym (emit_all-append p lines (p.render line ++ b'\n' ∷ []))))

lines_of-emit_all :
    (p : Platform) (lines : List Value)
    → ((v : Value) → one_line (p.render v) ≡ true)
    → lines_of (emit_all p lines []) ≡ (map p.render lines, [])
unfolding emit_all lines_of
lines_of-emit_all p [] compact = refl
lines_of-emit_all p (line ∷ lines) compact =
    ap lines_of (
      emit_all-append p lines (p.render line ++ b'\n' ∷ [])
      ∙ append_assoc (p.render line) (b'\n' ∷ []) (emit_all p lines []))
    ∙ (lines_of-line (p.render line) (emit_all p lines []) (compact line)
        ∙ ap (λ (r : List Text × Text). (p.render line ∷ r.0, r.1))
            (lines_of-emit_all p lines compact))

module _ (p : Platform) (f : Float64) (reading : Reading) (os : Text)
    (open_store : Text → Error.Result Database) where
  -- `main`: its output, where it starts.
  unfoldable pub main : List Text → ℤ → List (Text × ℤ × List (Attempt f)) → Outcome Text Text
  unfolding start emit_all ◌>>=◌
  main arguments now lines = do
    started ← start p reading os open_store arguments now
    ok (emit_all p (ready ∷ (serve p started.0 f reading lines started.1).0) [])

  serve-le :
      (config : Config) (lines : List (Text × ℤ × List (Attempt f))) (c : ClickMan)
      → length (serve p config f reading lines c).0 ≤ length lines
  unfolding serve
  serve-le config [] c = omega arith
  serve-le config ((line, now, attempts) ∷ lines) c =
      ground (arith, serve-le config lines (answer p config f reading line now attempts c).1)

  -- Where a JSON value is rendered on one line, the output of a driver that starts reads back, a line at a
  -- time, as the line that says it is ready and one line for each answer, in the order of the commands,
  -- with nothing after the last one. There are at most as many answers as commands.
  pub main_framed :
      (arguments : List Text) (now : ℤ) (lines : List (Text × ℤ × List (Attempt f))) (out : Text)
      → ((v : Value) → one_line (p.render v) ≡ true)
      → main arguments now lines ≡ ok out
      → (config : Config) × (c : ClickMan) × (start p reading os open_store arguments now
          ≡ ok (config, c))
        × (lines_of out ≡ (map p.render (ready ∷ (serve p config f reading lines c).0), []))
        × (length (serve p config f reading lines c).0 ≤ length lines)
  unfolding main
  main_framed arguments now lines out compact h = with-ok _ _ out h (λ started starts emits. (
    started.0,
    started.1,
    starts,
    ap lines_of (sym (ok-inj _ out emits))
        ∙ lines_of-emit_all p (ready ∷ (serve p started.0 f reading lines started.1).0) compact,
    serve-le started.0 lines started.1,
  ))
