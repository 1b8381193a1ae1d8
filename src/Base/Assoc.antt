-- ===== src/Base/Assoc.antt =====
-- `HashMap` as an association list over a key type with a Boolean equality. The program never
-- relies on the order of entries.
use Prim.Native.Nat.{ℕ}
use Prim.Native.String.{String}
use mathlib.Core.Path.{◌≡◌}
use mathlib.Core.Logic.{◌↔◌}
use mathlib.Core.Bool.{Bool, true}
use mathlib.Core.Option.{Option, none, some}
use mathlib.Core.List.{List, [], ◌∷◌}
use native.Mathlib.Omega.{arith}
use tpi_bmcd.Base.Tests.{◌==◌ as nat_eq, ==_iff, str_eq, str_eq_iff, if◌then◌else◌}

pub record Key {ℓ} (A : Type ℓ) : Type ℓ where
  pub same : A → A → Bool
  pub same_iff : (a b : A) → (same a b ≡ true) ↔ (a ≡ b)

instance abbrev pub nat_key : Key ℕ
nat_key = record { same = nat_eq; same_iff = ==_iff }

instance abbrev pub text_key : Key String
text_key = record { same = str_eq; same_iff = str_eq_iff }

module _ {ℓ κ} {K : Type ℓ} {V : Type κ} ⦃e : Key K⦄ where
  unfoldable pub lookup : K → List (K × V) → Option V
  lookup k [] = none
  lookup k ((j, v) ∷ m) = if e.same j k then some v else lookup k m

  unfoldable pub remove : K → List (K × V) → List (K × V)
  remove k [] = []
  remove k ((j, v) ∷ m) = let rest = remove k m in if e.same j k then rest else (j, v) ∷ rest

  unfoldable pub insert : K → V → List (K × V) → List (K × V)
  unfolding remove
  insert k v m = (k, v) ∷ remove k m

  -- `retain` with a test on the value.
  unfoldable pub retain_values : (V → Bool) → List (K × V) → List (K × V)
  retain_values p [] = []
  retain_values p ((j, v) ∷ m) = let rest = retain_values p m in if p v then (j, v) ∷ rest else rest

  pub lookup-remove :
      (k j : K) (m : List (K × V))
      → lookup j (remove k m) ≡ (if e.same k j then none else lookup j m)
  unfolding lookup remove
  lookup-remove k j [] = ground arith
  lookup-remove k j ((i, v) ∷ m) =
      ground (arith, lookup-remove k j m, e.same_iff i k, e.same_iff i j, e.same_iff k j)

  pub lookup-insert :
      (k j : K) (v : V) (m : List (K × V))
      → lookup j (insert k v m) ≡ (if e.same k j then some v else lookup j m)
  unfolding lookup insert
  lookup-insert k j v m = ground (arith, lookup-remove k j m)
