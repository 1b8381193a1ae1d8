-- ===== src/Base/Exec.antt =====
-- Code with effects on a state, which may fail. What was done before a failure stays done, so the
-- state comes back beside the error too.
use mathlib.Core.Path.{◌≡◌, refl}
use tpi_bmcd.Base.Results.{Result, ok, err}

abbrev pub Exec {ℓ κ ι} : Type ℓ → Type κ → Type ι → Type (ℓ ⊔ κ ⊔ ι)
Exec S E A = S → Result E A × S

module _ {ℓ κ ι} {S : Type ℓ} {E : Type κ} {A : Type ι} where
  abbrev pub pure : A → Exec S E A
  pure a s = (ok a, s)

  abbrev pub raise : E → Exec S E A
  raise e s = (err e, s)

  abbrev pub gets : (S → A) → Exec S E A
  gets f s = (ok (f s), s)

abbrev pub modify {ℓ κ} : {S : Type ℓ} {E : Type κ} → (S → S) → Exec S E (Unit {0})
modify f s = (ok tt, f s)

module _ {ℓ κ ι θ} {S : Type ℓ} {E : Type κ} {A : Type ι} {B : Type θ} where
  abbrev continue : Result E A → (A → Exec S E B) → Exec S E B
  continue (ok a) f s = f a s
  continue (err e) f s = (err e, s)

  infixl 5 ◌>>=◌
  abbrev pub ◌>>=◌ : Exec S E A → (A → Exec S E B) → Exec S E B
  ◌>>=◌ m f s = continue (m s).0 f (m s).1

module _ {ℓ κ θ} {S : Type ℓ} {E : Type κ} {B : Type θ} where
  infixl 5 ◌>>◌
  abbrev pub ◌>>◌ : Exec S E (Unit {0}) → Exec S E B → Exec S E B
  m >> k = m >>= λ _. k

-- A bind that returns has run both parts.
pub bind-ok {ℓ κ ι θ} :
    {S : Type ℓ} {E : Type κ} {A : Type ι} {B : Type θ} (m : Exec S E A) (f : A → Exec S E B)
    (s : S) {b : B}
    → ((m >>= f) s).0 ≡ ok b
    → (a : A) × ((m s).0 ≡ ok a) × ((m >>= f) s ≡ f a (m s).1)
bind-ok {E} {A} m f s {b} h = go (m s).0 refl h
  where
    go :
        (r : Result E A)
        → (m s).0 ≡ r
        → (continue r f (m s).1).0 ≡ ok b
        → (a : A) × ((m s).0 ≡ ok a) × ((m >>= f) s ≡ f a (m s).1)
    go (ok a) e h' = (a, e, rw e)
    go (err x) e h' = cc
