-- ===== src/Protocol/Batch/Panics.antt =====
-- When reading a batch panics: the sums and differences of times that have no value.
use clickman.Base.{
  ℕ, suc, ◌≡◌, refl, ◌↔◌, ◌⊎◌, inl, inr, true, none, some, List, arith, ◌==◌, Bool-cases, ◌≢◌, ap,
}
use clickman.Base.Int.{ℤ}
use clickman.Base.Text.{Text, text}
use clickman.Json.{Value, Items, Fields, nil, cons, obj}
use clickman.Json.Map.{get}
use clickman.Protocol.Outcome.{Outcome, ok, err, panic, ◌>>=◌, refuse_if}
use clickman.Protocol.Batch.{
  Limits, Reason, Event, Normalized, BatchError, Externals, text_of, then_parse, is_track,
  text_field, add_item, normalize_fields, normalize_event, normalize_items,
}
use clickman.Protocol.Batch.Split.{item_at, item_at-cons, item_at-first}

module _ (x : Externals) (normalize_one : Value → Outcome Reason Event) where
  add_item-panic :
      (from : ℕ) (item : Value) (one : Outcome Reason Event) (later : Normalized)
      → add_item x from item one later ≡ panic
      → one ≡ panic
  add_item-panic from item (ok event) later h = absurd (ground arith)
  add_item-panic from item (err reason) later h = absurd (ground arith)
  add_item-panic from item panic later h = refl

  -- An item of a batch that panics.
  abbrev pub Panicking : ℕ → Items → Type 0
  Panicking from items =
      (index : ℕ) × (item : Value) × (item_at from items index ≡ some item)
      × (normalize_one item ≡ panic)

  items_panic :
      (items : Items) (from : ℕ)
      → normalize_items x normalize_one from items ≡ panic
      → Panicking from items
  unfolding normalize_items ◌>>=◌
  items_panic nil from h = absurd (ground arith)
  items_panic (cons item items) from h =
      go (normalize_items x normalize_one (suc from) items) (items_panic items (suc from)) h
    where
      go :
          (later : Outcome BatchError Normalized)
          → (later ≡ panic → Panicking (suc from) items)
          → (later >>= add_item x from item (normalize_one item)) ≡ panic
          → Panicking from (cons item items)
      go (ok later) ih e = (
        from,
        item,
        item_at-first x normalize_one from item items,
        add_item-panic from item (normalize_one item) later e,
      )
      go (err reason) ih e = absurd (ground arith)
      go panic ih e =
          let (i, v, found, p) = ih refl in
          (i, v, item_at-cons x normalize_one from i item v items found, p)

  add_item-ne-err :
      (from : ℕ) (item : Value) (one : Outcome Reason Event) (later : Normalized) (e : BatchError)
      → add_item x from item one later ≢ err e
  add_item-ne-err from item (ok event) later e h = ground arith
  add_item-ne-err from item (err reason) later e h = ground arith
  add_item-ne-err from item panic later e h = ground arith

  -- An item is accepted or rejected, and no error ends the loop.
  items-ne-err :
      (items : Items) (from : ℕ) (e : BatchError)
      → normalize_items x normalize_one from items ≢ err e
  unfolding normalize_items ◌>>=◌
  items-ne-err nil from e h = ground arith
  items-ne-err (cons item items) from e h =
      go (normalize_items x normalize_one (suc from) items) (items-ne-err items (suc from) e) h
    where
      go :
          (later : Outcome BatchError Normalized)
          → later ≢ err e
          → (later >>= add_item x from item (normalize_one item)) ≢ err e
      go (ok later) ih h' = add_item-ne-err from item (normalize_one item) later e h'
      go (err reason) ih h' = ih h'
      go panic ih h' = ground arith

  panic_at :
      (from : ℕ) (item : Value) (items : Items)
      → normalize_one item ≡ panic
      → normalize_items x normalize_one from (cons item items) ≡ panic
  unfolding normalize_items ◌>>=◌
  panic_at from item items p =
      go (normalize_items x normalize_one (suc from) items) (items-ne-err items (suc from))
    where
      go :
          (later : Outcome BatchError Normalized)
          → ((e : BatchError) → later ≢ err e)
          → (later >>= add_item x from item (normalize_one item)) ≡ panic
      go (ok later) ne = ap (λ one. add_item x from item one later) p
      go (err reason) ne = absurd (ne reason refl)
      go panic ne = refl

  panic_after :
      (from : ℕ) (item : Value) (items : Items)
      → normalize_items x normalize_one (suc from) items ≡ panic
      → normalize_items x normalize_one from (cons item items) ≡ panic
  unfolding normalize_items ◌>>=◌
  panic_after from item items p = rw p refl

  panic_items :
      (items : Items) (from i : ℕ) (item : Value)
      → item_at from items i ≡ some item
      → normalize_one item ≡ panic
      → normalize_items x normalize_one from items ≡ panic
  unfolding item_at
  panic_items nil from i item found p = absurd (ground arith)
  panic_items (cons v items) from i item found p = elim (Bool-cases (i == from)) [
    | inl here ↦ panic_at from v items (ground arith)
    | inr there ↦ panic_after from v items (panic_items items (suc from) i item (ground arith) p)
  ]

  -- The loop over the items of a batch ends in no error; it panics exactly when one of the items
  -- does, and else it comes to a result.
  pub normalize_items_panics :
      (items : Items) (from : ℕ)
      → ((normalize_items x normalize_one from items ≡ panic) ↔ Panicking from items)
        × ((normalize_items x normalize_one from items ≡ panic)
            ⊎ ((result : Normalized) × (normalize_items x normalize_one from items ≡ ok result)))
  normalize_items_panics items from = (
    (items_panic items from, λ (i, item, found, p). panic_items items from i item found p),
    go (normalize_items x normalize_one from items) (items-ne-err items from),
  )
    where
      go :
          (loop : Outcome BatchError Normalized)
          → ((e : BatchError) → loop ≢ err e)
          → (loop ≡ panic) ⊎ ((result : Normalized) × (loop ≡ ok result))
      go (ok result) ne = inr (result, refl)
      go (err e) ne = absurd (ne e refl)
      go panic ne = inl refl

field_panics :
    (x : Externals) (fragments : List Text) (limits : Limits) (skew received_at : ℤ)
    (batch item : Fields) (id : ℕ) (event external_id : Text) (timestamp : ℤ)
    → is_track (text_of (get (text "type") item)) ≡ true
    → then_parse x.parse_uuid (text_of (get (text "messageId") item)) ≡ some id
    → text_field item (text "event") limits.max_event_chars ≡ some event
    → text_field item (text "externalId") limits.max_external_id_chars ≡ some external_id
    → then_parse x.parse_time (text_of (get (text "timestamp") item)) ≡ some timestamp
    → x.add_time timestamp skew ≡ none
    → normalize_event x fragments limits skew received_at batch (obj item) ≡ panic
unfolding normalize_event normalize_fields refuse_if ◌>>=◌
field_panics x fragments limits skew received_at batch item id event external_id timestamp track e1
      e2 e3 e4 e5 =
    rw (track, e1, e2, e3, e4, e5) refl

-- An event of a batch that is valid but for its time, which the skew moves out of the range of times,
-- makes the whole batch panic: none of its events is accepted or rejected.
pub overflow_panics :
    (x : Externals) (fragments : List Text) (limits : Limits) (skew received_at : ℤ)
    (batch item : Fields) (items : Items) (i id : ℕ) (event external_id : Text) (timestamp : ℤ)
    → item_at 0 items i ≡ some (obj item)
    → is_track (text_of (get (text "type") item)) ≡ true
    → then_parse x.parse_uuid (text_of (get (text "messageId") item)) ≡ some id
    → text_field item (text "event") limits.max_event_chars ≡ some event
    → text_field item (text "externalId") limits.max_external_id_chars ≡ some external_id
    → then_parse x.parse_time (text_of (get (text "timestamp") item)) ≡ some timestamp
    → x.add_time timestamp skew ≡ none
    → normalize_items x (normalize_event x fragments limits skew received_at batch) 0 items ≡ panic
overflow_panics x fragments limits skew received_at batch item items i id event external_id
      timestamp found track e1 e2 e3 e4 e5 =
    panic_items x (normalize_event x fragments limits skew received_at batch) items 0 i (obj item)
      found
      (field_panics x fragments limits skew received_at batch item id event external_id timestamp
        track e1 e2 e3 e4 e5)
