-- ===== src/Protocol/Sanitize/Laws.antt =====
-- What the sanitizer leaves of a flat map.
use clickman.Base.{
  ℕ, ◌≡◌, refl, ap, List, Bool, none, some, arith, if◌then◌else◌, Bool-cases, inl, inr,
}
use clickman.Base.Text.{Text, text_eq, text_eq_iff}
use clickman.Json.{Value, Fields, str, end, field}
use clickman.Json.Map.{get, len, any_key, map_values, Unique, Each}
use clickman.Protocol.Flatten.Shape.{IsScalar, IsFlat}
use clickman.Protocol.Sanitize.{filtered, sensitive, sanitize}

get-map_values :
    (f : Text → Value → Value) (k : Text) (m : Fields)
    → get k (map_values f m) ≡ elim (get k m) [ none ↦ none | some v ↦ some (f k v) ]
unfolding get map_values
get-map_values f k end = refl
get-map_values f k (field j v m) = elim (Bool-cases (text_eq j k)) [
  | inl e ↦ rw e (ap (λ t. some (f t v)) ((text_eq_iff j k).0 e))
  | inr e ↦ rw e (get-map_values f k m)
]

pub len-map_values : (f : Text → Value → Value) (m : Fields) → len (map_values f m) ≡ len m
unfolding len map_values
len-map_values f end = refl
len-map_values f (field j v m) = ground (arith, len-map_values f m)

pub any_key-map_values :
    (f : Text → Value → Value) (p : Text → Bool) (m : Fields)
    → any_key p (map_values f m) ≡ any_key p m
unfolding any_key map_values
any_key-map_values f p end = refl
any_key-map_values f p (field j v m) = rw (any_key-map_values f p m) refl

map_values-Unique : (f : Text → Value → Value) (m : Fields) → Unique m → Unique (map_values f m)
unfolding get map_values
map_values-Unique f end u = tt
map_values-Unique f (field j v m) u =
    (rw (get-map_values f j m) (rw u.0 refl), map_values-Unique f m u.1)

map_values-Each :
    (f : Text → Value → Value) (P : Text → Value → Type 0) (m : Fields)
    → ((k : Text) (v : Value) → P k v → P k (f k v))
    → Each P m
    → Each P (map_values f m)
unfolding map_values
map_values-Each f P end h e = tt
map_values-Each f P (field j v m) h e = (h j v e.0, map_values-Each f P m h e.1)

map_values-map_values :
    (f : Text → Value → Value) (m : Fields)
    → ((k : Text) (v : Value) → f k (f k v) ≡ f k v)
    → map_values f (map_values f m) ≡ map_values f m
unfolding map_values
map_values-map_values f end h = refl
map_values-map_values f (field j v m) h =
    rw (h j v) (ap (field j (f j v)) (map_values-map_values f m h))

module _ (is_alphanumeric : ℕ → Bool) (to_lowercase : Text → Text) (is_email : Text → Bool)
    (fragments : List Text) where
  abbrev pub clean : Fields → Fields
  clean = sanitize is_alphanumeric to_lowercase is_email fragments

  abbrev pub tainted : Text → Value → Bool
  tainted = sensitive is_alphanumeric to_lowercase is_email fragments

  -- Under a key stands `[FILTERED]` where the sanitizer finds the key or its text sensitive, and
  -- what stood there before otherwise; no key comes or goes.
  pub get-sanitize :
      (k : Text) (m : Fields)
      → get k (clean m)
        ≡ elim (get k m) [ none ↦ none | some v ↦ some (if tainted k v then str filtered else v) ]
  unfolding sanitize
  get-sanitize k m = get-map_values _ k m

  pub sanitize-IsFlat : (m : Fields) → IsFlat m → IsFlat (clean m)
  unfolding sanitize
  sanitize-IsFlat m f = (
    map_values-Each _ (λ _ v. IsScalar v) m
        (λ k v h. elim (Bool-cases (tainted k v)) [ inl e ↦ rw e tt | inr e ↦ rw e h ]) f.0,
    map_values-Unique _ m f.1,
  )

  -- Sanitizing twice is sanitizing once.
  pub sanitize-sanitize : (m : Fields) → clean (clean m) ≡ clean m
  unfolding sanitize
  sanitize-sanitize m = map_values-map_values _ m (λ k v. elim (Bool-cases (tainted k v)) [
    | inl e ↦ rw e (ground arith)
    | inr e ↦ rw e (rw e refl)
  ])
