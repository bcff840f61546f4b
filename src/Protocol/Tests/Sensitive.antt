-- ===== src/Protocol/Tests/Sensitive.antt =====
-- The theorems about sensitive texts and about panics at concrete inputs.
use clickman.Base.{◌≡◌, ◌↔◌, refl, true, none, []}
use clickman.Base.Int.{pos}
use clickman.Base.Text.{text, is_ascii_digit}
use clickman.Json.{obj, nil, cons, end, as_str}
use clickman.Json.Map.{get}
use clickman.Protocol.Outcome.{panic}
use clickman.Protocol.Sanitize.{contains_card, contains_phone}
use clickman.Protocol.Sanitize.Cards.{HoldsCard, contains_card_exact}
use clickman.Protocol.Sanitize.Phones.{HoldsPhone, contains_phone_exact}
use clickman.Protocol.Batch.Split.{item_at}
use clickman.Protocol.Batch.{
  Externals, normalize_items, normalize_event, text_field, default_limits,
}
use clickman.Protocol.Batch.Panics.{overflow_panics}
use clickman.Protocol.Tests.{externals, item}

contains_card_exact_example :
    (contains_card is_ascii_digit (text "card 4242 4242 4242 4242.") ≡ true)
    ↔ HoldsCard is_ascii_digit (text "card 4242 4242 4242 4242.")
contains_card_exact_example = contains_card_exact is_ascii_digit (text "card 4242 4242 4242 4242.")

contains_phone_exact_example :
    (contains_phone is_ascii_digit (text "call +1 (415) 555-0123") ≡ true)
    ↔ HoldsPhone is_ascii_digit (text "call +1 (415) 555-0123")
contains_phone_exact_example = contains_phone_exact is_ascii_digit (text "call +1 (415) 555-0123")

-- Times that have no sum.
abbrev overflowing : Externals
overflowing = record externals { add_time = λ a b. none }

overflow_panics_example :
    normalize_items overflowing
      (normalize_event overflowing [] default_limits (pos 0) (pos 10) end)
      0
      (cons (obj item) nil)
    ≡ panic
unfolding item_at get as_str text_field
overflow_panics_example =
    overflow_panics overflowing [] default_limits (pos 0) (pos 10) end item (cons (obj item) nil) 0
      2 (text "x") (text "u") (pos 3) refl refl refl refl refl refl refl
