-- ===== src/Protocol/Flatten/Shape.antt =====
-- The shape of what `flatten` returns: no objects and no arrays, no key twice; and an object that
-- has this shape already comes back as it is.
use clickman.Base.{
  ℕ, ◌+◌, ◌≤◌, ◌≡◌, sym, ◌∙◌, ap, subst, Option, none, some, ltb, length, Bool-cases, inl, inr,
  take_all,
}
use clickman.Base.Text.{Text}
use clickman.Json.{Value, Fields, null, bool, number, str, arr, obj, end, field}
use clickman.Json.Map.{insert, Unique, Each}
use clickman.Json.Laws.{
  insert-Unique, insert-Each, append, append_assoc, append-end, get-of_Unique, insert-new,
}
use clickman.Protocol.Flatten.{max_depth, max_string_chars, path_of, walk, flatten}

-- A value that a flat map may hold.
abbrev pub IsScalar : Value → Type 0
IsScalar (arr items) = ⊥
IsScalar (obj inner) = ⊥
IsScalar _ = Unit {0}

abbrev pub IsShort : Value → Type 0
IsShort (str s) = length s ≤ max_string_chars
IsShort _ = Unit {0}

abbrev pub IsFlat : Fields → Type 0
IsFlat m = Each (λ _ v. IsScalar v) m × Unique m

put-IsFlat : (k : Text) (v : Value) (m : Fields) → IsScalar v → IsFlat m → IsFlat (insert k v m)
put-IsFlat k v m s f = (insert-Each (λ _ v. IsScalar v) k v m s f.0, insert-Unique k v m f.1)

module _ (render : Value → Text) where
  walk-IsFlat :
      (m : Fields) (prefix : Option Text) (depth : ℕ) (flat : Fields)
      → IsFlat flat
      → IsFlat (walk render m prefix depth flat)
  unfolding walk
  walk-IsFlat end prefix depth flat f = f
  walk-IsFlat (field key (obj inner) rest) prefix depth flat f =
      elim (Bool-cases (ltb depth max_depth)) [
        | inl deep ↦ rw deep (
            walk-IsFlat rest prefix depth _
              (walk-IsFlat inner (some (path_of prefix key)) (depth + 1) flat f))
        | inr cut ↦ rw cut (walk-IsFlat rest prefix depth _ (put-IsFlat _ (str _) flat tt f))
      ]
  walk-IsFlat (field key (arr items) rest) prefix depth flat f =
      walk-IsFlat rest prefix depth _ (put-IsFlat _ (str _) flat tt f)
  walk-IsFlat (field key (str text) rest) prefix depth flat f =
      walk-IsFlat rest prefix depth _ (put-IsFlat _ (str _) flat tt f)
  walk-IsFlat (field key null rest) prefix depth flat f =
      walk-IsFlat rest prefix depth _ (put-IsFlat _ null flat tt f)
  walk-IsFlat (field key (bool b) rest) prefix depth flat f =
      walk-IsFlat rest prefix depth _ (put-IsFlat _ (bool b) flat tt f)
  walk-IsFlat (field key (number n) rest) prefix depth flat f =
      walk-IsFlat rest prefix depth _ (put-IsFlat _ (number n) flat tt f)

  -- Whatever the object, the flat map has no object or array for a value and no key twice.
  pub flatten-IsFlat : (m : Fields) → IsFlat (flatten render m)
  unfolding flatten
  flatten-IsFlat m = walk-IsFlat m none 1 end (tt, tt)

  append-insert :
      (k : Text) (v : Value) (m rest : Fields)
      → Unique (append m (field k v rest))
      → append (insert k v m) rest ≡ append m (field k v rest)
  append-insert k v m rest u =
      ap (λ a. append a rest) (insert-new k v m (get-of_Unique k v m rest u))
      ∙ append_assoc m (field k v end) rest

  -- One scalar member, and the rest by what is known of it.
  onward :
      (k : Text) (v : Value) (rest flat : Fields)
      → Unique (append flat (field k v rest))
      → (Unique (append (insert k v flat) rest)
          → walk render rest none 1 (insert k v flat) ≡ append (insert k v flat) rest)
      → walk render rest none 1 (insert k v flat) ≡ append flat (field k v rest)
  onward k v rest flat u ih =
      let e = append-insert k v flat rest u in ih (subst Unique (sym e) u) ∙ e

  walk-flat :
      (m flat : Fields)
      → Each (λ _ v. IsScalar v × IsShort v) m
      → Unique (append flat m)
      → walk render m none 1 flat ≡ append flat m
  unfolding walk
  walk-flat end flat e u = sym (append-end flat)
  walk-flat (field key (obj inner) rest) flat e u = absurd e.0.0
  walk-flat (field key (arr items) rest) flat e u = absurd e.0.0
  walk-flat (field key (str text) rest) flat e u =
      rw (take_all max_string_chars text e.0.1)
        (onward key (str text) rest flat u (walk-flat rest _ e.1))
  walk-flat (field key null rest) flat e u = onward key null rest flat u (walk-flat rest _ e.1)
  walk-flat (field key (bool b) rest) flat e u =
      onward key (bool b) rest flat u (walk-flat rest _ e.1)
  walk-flat (field key (number n) rest) flat e u =
      onward key (number n) rest flat u (walk-flat rest _ e.1)

  -- An object with scalar values, short texts and no key twice comes back as it is.
  pub flatten-flat :
      (m : Fields) → Each (λ _ v. IsScalar v × IsShort v) m → Unique m → flatten render m ≡ m
  unfolding flatten
  flatten-flat m e u = walk-flat m end e u
