-- ===== src/Json/Laws.antt =====
-- The laws of the calls of `serde_json::Map`, on which the proofs about the program rest.
use clickman.Base.{
  ◌+◌, ◌≤◌, ◌≡◌, refl, sym, Bool, none, some, arith, inl, inr, Bool-cases, if◌then◌else◌, ap, ◌≢◌,
  subst,
}
use clickman.Base.Text.{Text, text_eq, text_eq_iff, text_eq_refl}
use clickman.Json.{Value, Fields, end, field}
use clickman.Json.Map.{get, insert, extend, retain, len, Unique, Each}

pub get-insert :
    (j k : Text) (v : Value) (m : Fields)
    → get j (insert k v m) ≡ (if text_eq k j then some v else get j m)
unfolding get insert
get-insert j k v end = refl
get-insert j k v (field i w m) =
    ground (arith, text_eq_iff k j, text_eq_iff i k, text_eq_iff i j, get-insert j k v m)

pub insert-Unique : (k : Text) (v : Value) (m : Fields) → Unique m → Unique (insert k v m)
unfolding get insert
insert-Unique k v end u = (refl, tt)
insert-Unique k v (field j w m) u = elim (Bool-cases (text_eq j k)) [
  | inl e ↦ rw e u
  | inr e ↦ rw e (
    ground (arith, get-insert j k v m, text_eq_iff k j, text_eq_iff j k),
    insert-Unique k v m u.1,
  )
]

-- What a map holds under any key says the same of the map's members.
pub insert-Each :
    (P : Text → Value → Type 0) (k : Text) (v : Value) (m : Fields)
    → P k v
    → Each P m
    → Each P (insert k v m)
unfolding insert
insert-Each P k v end p e = (p, tt)
insert-Each P k v (field j w m) p e = elim (Bool-cases (text_eq j k)) [
  | inl same ↦ rw same (subst (λ t. P t v) (sym ((text_eq_iff j k).0 same)) p, e.1)
  | inr other ↦ rw other (e.0, insert-Each P k v m p e.1)
]

pub len-insert-le : (k : Text) (v : Value) (m : Fields) → len (insert k v m) ≤ len m + 1
unfolding insert len
len-insert-le k v end = omega arith
len-insert-le k v (field j w m) = ground (arith, len-insert-le k v m)

pub get-extend :
    (k : Text) (m n : Fields)
    → Unique n
    → get k (extend m n) ≡ elim (get k n) [ some v ↦ some v | none ↦ get k m ]
unfolding get extend
get-extend k m end u = refl
get-extend k m (field j v n) u =
    ground (arith, get-extend k (insert j v m) n u.1, get-insert k j v m, text_eq_iff j k, u.0)

pub extend-Unique : (m n : Fields) → Unique m → Unique (extend m n)
unfolding extend
extend-Unique m end u = u
extend-Unique m (field k v n) u = extend-Unique (insert k v m) n (insert-Unique k v m u)

pub get-retain :
    (p : Value → Bool) (k : Text) (m : Fields)
    → Unique m
    → get k (retain p m) ≡ elim (get k m) [ none ↦ none | some v ↦ if p v then some v else none ]
unfolding get retain
get-retain p k end u = refl
get-retain p k (field j v m) u = ground (arith, get-retain p k m u.1, text_eq_iff j k, u.0)

pub retain-Unique : (p : Value → Bool) (m : Fields) → Unique m → Unique (retain p m)
unfolding get retain
retain-Unique p end u = tt
retain-Unique p (field k v m) u = ground (arith, get-retain p k m u.1, retain-Unique p m u.1, u.0)

-- One map after another, which is how insertions of new keys build a map.
abbrev pub append : Fields → Fields → Fields
append end n = n
append (field k v m) n = field k v (append m n)

pub append_assoc : (a b d : Fields) → append (append a b) d ≡ append a (append b d)
append_assoc end b d = refl
append_assoc (field k v a) b d = ap (field k v) (append_assoc a b d)

pub append-end : (m : Fields) → append m end ≡ m
append-end end = refl
append-end (field k v m) = ap (field k v) (append-end m)

get-append_here : (k : Text) (v : Value) (a b : Fields) → get k (append a (field k v b)) ≢ none
unfolding get
get-append_here k v end b h = ground (arith, text_eq_refl k)
get-append_here k v (field j w a) b h = ground (arith, get-append_here k v a b)

pub get-of_Unique :
    (k : Text) (v : Value) (a b : Fields) → Unique (append a (field k v b)) → get k a ≡ none
unfolding get
get-of_Unique k v end b u = refl
get-of_Unique k v (field j w a) b u = elim (Bool-cases (text_eq j k)) [
  | inl same ↦ absurd (
      get-append_here k v a b
        (subst (λ t. get t (append a (field k v b)) ≡ none) ((text_eq_iff j k).0 same) u.0))
  | inr other ↦ rw other (get-of_Unique k v a b u.1)
]

pub insert-new :
    (k : Text) (v : Value) (m : Fields) → get k m ≡ none → insert k v m ≡ append m (field k v end)
unfolding get insert
insert-new k v end h = refl
insert-new k v (field j w m) h = ground (arith, insert-new k v m)
