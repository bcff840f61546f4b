-- ===== src/Protocol/Flatten/Leaves.antt =====
-- What flattening promises, said without its loop: the leaves of an object with their dotted paths,
-- in the order of the document, of which the last with a path is the one that counts.
use clickman.Base.{
  ℕ, ◌+◌, ◌≡◌, refl, ◌∙◌, ap, sym, List, [], ◌∷◌, ◌++◌, Option, none, some, ltb, if◌then◌else◌,
  Bool-cases, inl, inr,
}
use clickman.Base.Text.{Text, text_eq}
use clickman.Json.{Value, Fields, null, bool, number, str, arr, obj, end, field}
use clickman.Json.Map.{get}
use clickman.Json.Laws.{get-insert}
use clickman.Protocol.Flatten.{max_depth, truncate, path_of, walk, flatten}

-- One value of the flat map, before collisions.
abbrev pub Leaf : Type 0
Leaf = Text × Value

module _ (render : Value → Text) where
  unfoldable pub leaves : Fields → Option Text → ℕ → List Leaf
  leaves end prefix depth = []
  leaves (field key (obj inner) rest) prefix depth =
      (if ltb depth max_depth
        then leaves inner (some (path_of prefix key)) (depth + 1)
        else (path_of prefix key, str (render (obj inner))) ∷ [])
      ++ leaves rest prefix depth
  leaves (field key (arr items) rest) prefix depth =
      (path_of prefix key, str (render (arr items))) ∷ leaves rest prefix depth
  leaves (field key (str text) rest) prefix depth =
      (path_of prefix key, str (truncate text)) ∷ leaves rest prefix depth
  leaves (field key scalar rest) prefix depth =
      (path_of prefix key, scalar) ∷ leaves rest prefix depth

-- The last value that a list of leaves has for a path, or else the one given.
unfoldable pub last_value : Text → List Leaf → Option Value → Option Value
last_value k [] before = before
last_value k ((j, v) ∷ ls) before = last_value k ls (if text_eq j k then some v else before)

last_value-append :
    (k : Text) (xs ys : List Leaf) (o : Option Value)
    → last_value k (xs ++ ys) o ≡ last_value k ys (last_value k xs o)
unfolding last_value
last_value-append k [] ys o = refl
last_value-append k ((j, v) ∷ xs) ys o = last_value-append k xs ys _

module _ (render : Value → Text) (k : Text) where
  get-walk :
      (m : Fields) (prefix : Option Text) (depth : ℕ) (flat : Fields)
      → get k (walk render m prefix depth flat)
        ≡ last_value k (leaves render m prefix depth) (get k flat)
  unfolding walk leaves last_value
  get-walk end prefix depth flat = refl
  get-walk (field key (obj inner) rest) prefix depth flat =
      elim (Bool-cases (ltb depth max_depth)) [
        | inl deep ↦ rw deep (
            get-walk rest prefix depth _
            ∙ ap (last_value k (leaves render rest prefix depth))
                (get-walk inner (some (path_of prefix key)) (depth + 1) flat)
            ∙ sym (
                last_value-append k (leaves render inner (some (path_of prefix key)) (depth + 1))
                  (leaves render rest prefix depth) (get k flat)))
        | inr cut ↦ rw cut (get-walk rest prefix depth _ ∙ rw get-insert)
      ]
  get-walk (field key (arr items) rest) prefix depth flat =
      get-walk rest prefix depth _ ∙ rw get-insert
  get-walk (field key (str text) rest) prefix depth flat =
      get-walk rest prefix depth _ ∙ rw get-insert
  get-walk (field key null rest) prefix depth flat = get-walk rest prefix depth _ ∙ rw get-insert
  get-walk (field key (bool b) rest) prefix depth flat =
      get-walk rest prefix depth _ ∙ rw get-insert
  get-walk (field key (number n) rest) prefix depth flat =
      get-walk rest prefix depth _ ∙ rw get-insert

  -- The flat map holds under each path the last leaf with that path, and nothing else.
  pub get-flatten :
      (m : Fields) → get k (flatten render m) ≡ last_value k (leaves render m none 1) none
  unfolding flatten get
  get-flatten m = get-walk m none 1 end
