-- ===== src/Client/Error.antt =====
-- rust/crates/clickman/src/error.rs, without the sources of the errors that come from outside.
use clickman.Base.{◌≡◌, refl, ◌⊎◌, inl, inr}
use clickman.Base.Int.{ℤ}

pub data Error : Type 0 where
  invalid_event : Error
  invalid_external_id : Error
  invalid_properties : Error
  invalid_traits : Error
  invalid_context : Error
  newer_store : ℤ → Error
  unknown_store : ℤ → Error
  store_directory : Error
  stored_traits : Error
  compression : Error
  storage : Error

pub data Result {ℓ} (A : Type ℓ) : Type ℓ where
  ok : A → Result A
  err : Error → Result A

infixl 5 ◌>>=◌
abbrev pub ◌>>=◌ {ℓ κ} : {A : Type ℓ} {B : Type κ} → Result A → (A → Result B) → Result B
ok a >>= f = f a
err e >>= f = err e

pub Result-cases {ℓ} :
    {A : Type ℓ} (r : Result A) → ((a : A) × (r ≡ ok a)) ⊎ ((e : Error) × (r ≡ err e))
Result-cases (ok a) = inl (a, refl)
Result-cases (err e) = inr (e, refl)
