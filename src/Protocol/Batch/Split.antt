-- ===== src/Protocol/Batch/Split.antt =====
-- How a batch is split into accepted and rejected events.
use clickman.Base.{
  ℕ, suc, ◌+◌, ◌≤◌, ◌≡◌, refl, subst, Option, none, some, List, [], ◌∷◌, length, All, arith, ◌==◌,
  if◌then◌else◌, ◌≢◌,
}
use clickman.Json.{Value, Items, nil, cons}
use clickman.Protocol.Outcome.{Outcome, ok, err, panic, ◌>>=◌, with-ok, ok-inj}
use clickman.Protocol.Batch.{
  Reason, Event, Rejection, Normalized, Externals, item_message_id, count_items, add_item,
  normalize_items,
}

-- The item at an index, where the first has this one.
unfoldable pub item_at : ℕ → Items → ℕ → Option Value
item_at from nil i = none
item_at from (cons item items) i = if i == from then some item else item_at (suc from) items i

module _ (x : Externals) (normalize_one : Value → Outcome Reason Event) where
  -- A rejection that names its item and says why.
  abbrev pub IsExplained : ℕ → Items → Rejection → Type 0
  IsExplained from items r =
      (item : Value) × (item_at from items r.index ≡ some item)
      × (normalize_one item ≡ err r.reason)
      × (r.message_id ≡ item_message_id item)

  abbrev pub IsItems : ℕ → Items → Event → Type 0
  IsItems from items event =
      (index : ℕ) × (item : Value) × (item_at from items index ≡ some item)
      × (normalize_one item ≡ ok event)

  -- Indices that rise, from this one.
  abbrev pub Rising : ℕ → List Rejection → Type 0
  Rising from [] = Unit {0}
  Rising from (r ∷ rs) = (from ≤ r.index) × Rising (suc r.index) rs

  abbrev pub IsSplit : ℕ → Items → Normalized → Type 0
  IsSplit from items result =
      (length result.events + length result.rejected ≡ count_items items)
      × Rising from result.rejected
      × All (IsExplained from items) result.rejected
      × All (IsItems from items) result.events

  Rising-weaken : (a b : ℕ) (rs : List Rejection) → a ≤ b → Rising b rs → Rising a rs
  Rising-weaken a b [] h up = tt
  Rising-weaken a b (r ∷ rs) h up = (omega arith, up.1)

  -- What was said of the later items holds of all, since their indices are past the first one's.
  item_at-below :
      (from i : ℕ) (items : Items) (item : Value) → item_at from items i ≡ some item → from ≤ i
  unfolding item_at
  item_at-below from i nil item h = absurd (ground arith)
  item_at-below from i (cons v items) item h = ground (arith, item_at-below (suc from) i items item)

  pub item_at-cons :
      (from i : ℕ) (v item : Value) (items : Items)
      → item_at (suc from) items i ≡ some item
      → item_at from (cons v items) i ≡ some item
  unfolding item_at
  item_at-cons from i v item items h = ground (arith, item_at-below (suc from) i items item h)

  later-IsExplained :
      (from : ℕ) (v : Value) (items : Items) (rs : List Rejection)
      → All (IsExplained (suc from) items) rs
      → All (IsExplained from (cons v items)) rs
  later-IsExplained from v items [] h = tt
  later-IsExplained from v items (r ∷ rs) ((item, found, why, id), rest) = (
    (item, item_at-cons from r.index v item items found, why, id),
    later-IsExplained from v items rs rest,
  )

  later-IsItems :
      (from : ℕ) (v : Value) (items : Items) (es : List Event)
      → All (IsItems (suc from) items) es
      → All (IsItems from (cons v items)) es
  later-IsItems from v items [] h = tt
  later-IsItems from v items (e ∷ es) ((i, item, found, same), rest) =
      ((i, item, item_at-cons from i v item items found, same), later-IsItems from v items es rest)

  pub item_at-first :
      (from : ℕ) (v : Value) (items : Items) → item_at from (cons v items) from ≡ some v
  unfolding item_at
  item_at-first from v items = ground arith

  add_item-IsSplit :
      (from : ℕ) (v : Value) (items : Items) (one : Outcome Reason Event)
      (later result : Normalized)
      → normalize_one v ≡ one
      → IsSplit (suc from) items later
      → add_item x from v one later ≡ ok result
      → IsSplit from (cons v items) result
  unfolding count_items
  add_item-IsSplit from v items (ok event) later result same (total, rising, explained, events) h =
      subst (IsSplit from (cons v items)) (ok-inj _ result h) (
        omega arith,
        Rising-weaken from (suc from) later.rejected (omega arith) rising,
        later-IsExplained from v items later.rejected explained,
        (
          (from, v, item_at-first from v items, same),
          later-IsItems from v items later.events events,
        ),
      )
  add_item-IsSplit from v items (err reason) later result same (total, rising, explained, events)
        h =
      subst (IsSplit from (cons v items)) (ok-inj _ result h) (
        omega arith,
        (omega arith, rising),
        (
          (v, item_at-first from v items, same, refl),
          later-IsExplained from v items later.rejected explained,
        ),
        later-IsItems from v items later.events events,
      )
  add_item-IsSplit from v items panic later result same split h = absurd (ground arith)

  -- Where the loop over the items comes to a result, the events and the rejections are together as
  -- many as the items; each event is what one of the items normalizes to; the indices of the
  -- rejections rise, and each rejection has the index, the message id and the reason of its item.
  pub normalize_items-IsSplit :
      (items : Items) (from : ℕ) (result : Normalized)
      → normalize_items x normalize_one from items ≡ ok result
      → IsSplit from items result
  unfolding normalize_items count_items
  normalize_items-IsSplit nil from result h =
      subst (IsSplit from nil) (ok-inj _ result h) (refl, tt, tt, tt)
  normalize_items-IsSplit (cons item items) from result h = with-ok _ _ _ h (λ later e last.
      add_item-IsSplit from item items (normalize_one item) later result refl
        (normalize_items-IsSplit items (suc from) later e) last)

  -- A batch that can be read is answered: where no item panics, its items come to a result.
  pub normalize_items-total :
      (items : Items) (from : ℕ)
      → ((item : Value) → normalize_one item ≢ panic)
      → (result : Normalized) × (normalize_items x normalize_one from items ≡ ok result)
  unfolding normalize_items ◌>>=◌
  normalize_items-total nil from h = (_, refl)
  normalize_items-total (cons item items) from h =
      let (later, e) = normalize_items-total items (suc from) h in
      rw e (go (normalize_one item) later (h item))
    where
      go :
          (one : Outcome Reason Event) (later : Normalized)
          → one ≢ panic
          → (result : Normalized) × (add_item x from item one later ≡ ok result)
      go (ok event) later ne = (_, refl)
      go (err reason) later ne = (_, refl)
      go panic later ne = absurd (ne refl)
