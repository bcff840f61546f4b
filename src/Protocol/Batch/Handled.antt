-- ===== src/Protocol/Batch/Handled.antt =====
-- No item of a batch is lost between `normalize` and its result.
use mathlib.Core.List.{Memᴰ}
use mathlib.Core.List.Memᴰ.{head, tail}
use clickman.Base.{
  ℕ, suc, ◌≡◌, refl, sym, ◌⊎◌, inl, inr, subst, ◌∙◌, ap, Option, some, List, ◌∷◌, arith,
}
use clickman.Base.Int.{ℤ, ◌-ℤ◌}
use clickman.Base.Text.{Text, text}
use clickman.Json.{
  Value, Items, Fields, null, bool, number, str, arr, obj, nil, cons, as_array, as_object,
}
use clickman.Json.Map.{get}
use clickman.Protocol.Outcome.{Outcome, ok, err, panic, with-ok, ok-inj, ok_or-ok}
use clickman.Protocol.Batch.{
  Reason, Event, Rejection, Normalized, Limits, Externals, then_parse, item_message_id, add_item,
  body_value, array_of, normalize_fields, normalize_event, normalize_items, normalize,
}
use clickman.Protocol.Batch.Split.{item_at}

module _ (x : Externals) (normalize_one : Value → Outcome Reason Event) where
  -- Each item is accepted or rejected, under its index.
  abbrev pub Handled : Normalized → ℕ → Value → Type 0
  Handled result index item =
      ((event : Event) × (normalize_one item ≡ ok event) × Memᴰ event result.events)
      ⊎ ((reason : Reason) × (normalize_one item ≡ err reason)
          × Memᴰ (record { index = index; message_id = item_message_id item; reason = reason })
              result.rejected)

  add_item-first :
      (from : ℕ) (item : Value) (one : Outcome Reason Event) (later result : Normalized)
      → normalize_one item ≡ one
      → add_item x from item one later ≡ ok result
      → Handled result from item
  add_item-first from item (ok event) later result same h =
      subst (λ r. Handled r from item) (ok-inj _ result h) (inl (event, same, head refl))
  add_item-first from item (err reason) later result same h =
      subst (λ r. Handled r from item) (ok-inj _ result h) (inr (reason, same, head refl))
  add_item-first from item panic later result same h = absurd (ground arith)

  Handled-ok :
      (event : Event) (later : Normalized) (index : ℕ) (item : Value)
      → Handled later index item
      → Handled (record later { events = event ∷ later.events }) index item
  Handled-ok event later index item (inl (e, same, found)) = inl (e, same, tail found)
  Handled-ok event later index item (inr h) = inr h

  Handled-err :
      (r : Rejection) (later : Normalized) (index : ℕ) (item : Value)
      → Handled later index item
      → Handled (record later { rejected = r ∷ later.rejected }) index item
  Handled-err r later index item (inl h) = inl h
  Handled-err r later index item (inr (reason, same, found)) = inr (reason, same, tail found)

  add_item-later :
      (from : ℕ) (v : Value) (one : Outcome Reason Event) (later result : Normalized) (index : ℕ)
      (item : Value)
      → add_item x from v one later ≡ ok result
      → Handled later index item
      → Handled result index item
  add_item-later from v (ok event) later result index item h handled =
      subst (λ r. Handled r index item) (ok-inj _ result h)
        (Handled-ok event later index item handled)
  add_item-later from v (err reason) later result index item h handled =
      subst (λ r. Handled r index item) (ok-inj _ result h) (Handled-err _ later index item handled)
  add_item-later from v panic later result index item h handled = absurd (ground arith)

  item_at-next :
      (from index : ℕ) (v item : Value) (items : Items)
      → item_at from (cons v items) index ≡ some item
      → ((index ≡ from) × (v ≡ item)) ⊎ (item_at (suc from) items index ≡ some item)
  unfolding item_at
  item_at-next from index v item items h = ground arith

  -- No item of a batch is lost: each one is an event of the result, or is rejected under its index.
  pub normalize_items-Handled :
      (items : Items) (from : ℕ) (result : Normalized) (index : ℕ) (item : Value)
      → normalize_items x normalize_one from items ≡ ok result
      → item_at from items index ≡ some item
      → Handled result index item
  unfolding normalize_items item_at
  normalize_items-Handled nil from result index item h at = absurd (ground arith)
  normalize_items-Handled (cons v items) from result index item h at =
      with-ok _ _ _ h (λ later e last. elim (item_at-next from index v item items at) [
        | inl (i, same) ↦
            subst (λ n. Handled result n item) (sym i)
              (subst (Handled result from) same
                (add_item-first from v (normalize_one v) later result refl last))
        | inr found ↦
            add_item-later from v (normalize_one v) later result index item last
              (normalize_items-Handled items (suc from) later index item e found)
      ])

body_value-ok :
    (x : Externals) (outcome : Outcome Text Value) (value : Value)
    → body_value x outcome ≡ ok value
    → outcome ≡ ok value
body_value-ok x (ok v) value h = ap ok (ok-inj v value h)
body_value-ok x (err message) value h = absurd (ground arith)
body_value-ok x panic value h = absurd (ground arith)

as_object-some : (value : Value) (root : Fields) → as_object value ≡ some root → value ≡ obj root
unfolding as_object
as_object-some value root h = ground arith

array_of-some :
    (x : Externals) (o : Option Value) (items : Items)
    → array_of x o ≡ some items
    → o ≡ some (arr items)
unfolding as_array
array_of-some x o items h = ground arith

module _ (x : Externals) (fragments : List Text) (limits : Limits) (received_at : ℤ) where
  -- A batch that is read: its body is an object with an array of items under `batch`, which are made
  -- into events with one correction of the time and one context.
  pub record IsRead (bytes : List ℕ) (normalized : Normalized) : Type 0 where
    pub root : Fields
    pub items : Items
    pub skew : ℤ
    pub context : Fields
    pub parsed : x.from_slice bytes ≡ ok (obj root)
    pub batch : get (text "batch") root ≡ some (arr items)
    pub normal :
        normalize_items x (normalize_event x fragments limits skew received_at context) 0 items
        ≡ ok normalized

  pub normalize-IsRead :
      (bytes : List ℕ) (normalized : Normalized)
      → normalize x bytes received_at fragments limits ≡ ok normalized
      → IsRead bytes normalized
  unfolding normalize
  normalize-IsRead bytes normalized h = with-ok _ _ _ h (λ value value_ok h1.
      with-ok _ _ _ h1 (λ root root_ok h2. with-ok _ _ _ h2 (λ sent_at sent_ok h3.
        with-ok _ _ _ h3 (λ items items_ok h4. with-ok _ _ _ h4 (λ u count_ok h5.
          with-ok _ _ _ h5 (λ context context_ok last. record {
            root = root;
            items = items;
            skew = received_at -ℤ sent_at;
            context = context;
            parsed =
                body_value-ok x _ value value_ok
                ∙ ap ok (as_object-some value root (ok_or-ok _ _ root root_ok));
            batch = array_of-some x _ items (ok_or-ok _ _ items items_ok);
            normal = last;
          }))))))

  -- An event has the id of its item.
  pub normalize_event-id :
      (skew : ℤ) (context : Fields) (item : Value) (event : Event)
      → normalize_event x fragments limits skew received_at context item ≡ ok event
      → then_parse x.parse_uuid (item_message_id item) ≡ some event.message_id
  unfolding normalize_event normalize_fields item_message_id
  normalize_event-id skew context (obj item) event h = with-ok _ _ _ h (λ u tracked h1.
      with-ok _ _ _ h1 (λ message_id id_ok h2. with-ok _ _ _ h2 (λ a b h3.
        with-ok _ _ _ h3 (λ a b h4. with-ok _ _ _ h4 (λ a b h5. with-ok _ _ _ h5 (λ a b h6.
          with-ok _ _ _ h6 (λ a b h7. with-ok _ _ _ h7 (λ a b h8. with-ok _ _ _ h8 (λ a b h9.
            with-ok _ _ _ h9 (λ a b h10. with-ok _ _ _ h10 (λ a b last.
              ok_or-ok _ _ message_id id_ok
              ∙ ap some (ap (λ (e : Event). e.message_id) (ok-inj _ event last)))))))))))))
  normalize_event-id skew context null event h = absurd (ground arith)
  normalize_event-id skew context (bool b) event h = absurd (ground arith)
  normalize_event-id skew context (number n) event h = absurd (ground arith)
  normalize_event-id skew context (str s) event h = absurd (ground arith)
  normalize_event-id skew context (arr items) event h = absurd (ground arith)
