-- ===== src/Base/Results.antt =====
-- `Result<A, E>` with the `?` operator as bind.
use mathlib.Core.Path.{◌≡◌, refl}
use mathlib.Core.Logic.{◌⊎◌, inl, inr}
use mathlib.Core.Bool.{Bool, true, false}
use mathlib.Core.Option.{Option, none, some}

pub data Result {ℓ κ} (E : Type ℓ) (A : Type κ) : Type (ℓ ⊔ κ) where
  ok : A → Result E A
  err : E → Result E A

infixl 5 ◌>>=◌ ◌>>◌
abbrev pub ◌>>=◌ {ℓ κ ι} :
    {E : Type ℓ} {A : Type κ} {B : Type ι} → Result E A → (A → Result E B) → Result E B
ok a >>= f = f a
err e >>= f = err e

abbrev pub ◌>>◌ {ℓ ι} : {E : Type ℓ} {B : Type ι} → Result E (Unit {0}) → Result E B → Result E B
m >> k = m >>= λ _. k

-- `o.ok_or(e)`
abbrev pub ok_or {ℓ κ} : {E : Type ℓ} {A : Type κ} → Option A → E → Result E A
ok_or none e = err e
ok_or (some a) e = ok a

-- `r.err()`
abbrev pub err? {ℓ κ} : {E : Type ℓ} {A : Type κ} → Result E A → Option E
err? (ok a) = none
err? (err e) = some e

-- `r.map_err(f)`
abbrev pub map_err {ℓ κ ι} :
    {E : Type ℓ} {F : Type κ} {A : Type ι} → (E → F) → Result E A → Result F A
map_err f (ok a) = ok a
map_err f (err e) = err (f e)

-- `o.unwrap_or(d)`
abbrev pub unwrap_or {ℓ} : {A : Type ℓ} → Option A → A → A
unwrap_or none d = d
unwrap_or (some a) d = a

abbrev pub is_ok {ℓ κ} : {E : Type ℓ} {A : Type κ} → Result E A → Bool
is_ok (ok a) = true
is_ok (err e) = false

pub Result-cases {ℓ κ} :
    {E : Type ℓ} {A : Type κ} (r : Result E A) → ((a : A) × (r ≡ ok a)) ⊎ ((e : E) × (r ≡ err e))
Result-cases (ok a) = inl (a, refl)
Result-cases (err e) = inr (e, refl)

-- What holds of the value, if there is one.
abbrev pub IfOk {ℓ κ ι} : {E : Type ℓ} {A : Type κ} → (A → Type ι) → Result E A → Type ι
IfOk P (ok a) = P a
IfOk P (err e) = Unit

-- A chain of fallible steps is followed step by step.
pub IfOk-bind {ℓ κ ι θ} :
    {E : Type ℓ} {A : Type κ} {B : Type ι} (P : B → Type θ) (r : Result E A) (f : A → Result E B)
    → ((a : A) → r ≡ ok a → IfOk P (f a))
    → IfOk P (r >>= f)
IfOk-bind P (ok a) f h = h a refl
IfOk-bind P (err e) f h = tt

pub IfOk-map {ℓ κ ι θ} :
    {E : Type ℓ} {A : Type κ} (P : A → Type ι) (Q : A → Type θ) (r : Result E A)
    → ((a : A) → P a → Q a)
    → IfOk P r
    → IfOk Q r
IfOk-map P Q (ok a) h p = h a p
IfOk-map P Q (err e) h p = tt
