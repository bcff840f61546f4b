-- ===== src/Protocol/Outcome.antt =====
-- What a call of the crate comes to: a value, an error, or a panic.
use clickman.Base.{Option, none, some, ◌≡◌, refl, arith, Bool, true, false, if◌then◌else◌}

pub data Outcome {ℓ κ} (E : Type ℓ) (A : Type κ) : Type (ℓ ⊔ κ) where
  ok : A → Outcome E A
  err : E → Outcome E A
  panic : Outcome E A

infixl 5 ◌>>=◌
unfoldable pub ◌>>=◌ {ℓ κ λ'} :
    {E : Type ℓ} {A : Type κ} {B : Type λ'} → Outcome E A → (A → Outcome E B) → Outcome E B
ok a >>= f = f a
err e >>= f = err e
panic >>= f = panic

-- `Option::ok_or`, and a call that panics where it has no value.
abbrev pub ok_or {ℓ κ} : {E : Type ℓ} {A : Type κ} → E → Option A → Outcome E A
ok_or e (some a) = ok a
ok_or e none = err e

abbrev pub or_panic {ℓ κ} : {E : Type ℓ} {A : Type κ} → Option A → Outcome E A
or_panic (some a) = ok a
or_panic none = panic

-- An early return of an error.
unfoldable pub refuse_if {ℓ} : {E : Type ℓ} → Bool → E → Outcome E (Unit {0})
refuse_if test e = if test then err e else ok tt

pub refuse_if-ok {ℓ} :
    {E : Type ℓ} (test : Bool) (e : E) (u : Unit {0}) → refuse_if test e ≡ ok u → test ≡ false
unfolding refuse_if
refuse_if-ok true e u h = absurd (ground arith)
refuse_if-ok false e u h = refl

-- The value of a chain that has one comes from the value of its first step.
pub bind-ok {ℓ κ λ'} :
    {E : Type ℓ} {A : Type κ} {B : Type λ'} (o : Outcome E A) (f : A → Outcome E B) (b : B)
    → (o >>= f) ≡ ok b
    → (a : A) × (o ≡ ok a) × (f a ≡ ok b)
unfolding ◌>>=◌
bind-ok (ok a) f b h = (a, refl, h)
bind-ok (err e) f b h = absurd (ground arith)
bind-ok panic f b h = absurd (ground arith)

pub ok_or-ok {ℓ κ} :
    {E : Type ℓ} {A : Type κ} (e : E) (o : Option A) (a : A) → ok_or e o ≡ ok a → o ≡ some a
ok_or-ok e (some b) a h = ground arith
ok_or-ok e none a h = absurd (ground arith)

pub or_panic-ok {ℓ κ} :
    {E : Type ℓ} {A : Type κ} (o : Option A) (a : A) → or_panic {E = E} o ≡ ok a → o ≡ some a
or_panic-ok (some b) a h = ground arith
or_panic-ok none a h = absurd (ground arith)

-- The same in a proof of anything, where the value is a variable.
pub with-ok {ℓ κ λ' μ} :
    {E : Type ℓ} {A : Type κ} {B : Type λ'} {P : Type μ} (o : Outcome E A) (f : A → Outcome E B)
    (b : B)
    → (o >>= f) ≡ ok b
    → ((a : A) → o ≡ ok a → f a ≡ ok b → P)
    → P
with-ok o f b h prove = let (a, e, rest) = bind-ok o f b h in prove a e rest

pub ok-inj {ℓ κ} : {E : Type ℓ} {A : Type κ} (a b : A) → ◌≡◌ {A = Outcome E A} (ok a) (ok b) → a ≡ b
ok-inj a b h = ground arith
