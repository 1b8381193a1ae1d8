-- ===== src/Base/Print.antt =====
-- Numbers as texts, `to_string()` and `{:x}`, which the parser of Base/Text reads back.
use Prim.Native.Nat.{ℕ, zero, suc, ◌+◌, ◌*◌, ◌/◌, ◌%◌, ◌<◌}
use Prim.Native.Char.{Char, code}
use Prim.Native.String.{String}
use mathlib.Core.Path.{◌≡◌, refl, ap, ◌∙◌}
use mathlib.Core.Logic.{inl, inr}
use mathlib.Core.Option.{some}
use mathlib.Core.Bool.{false}
use native.Mathlib.Omega.{arith}
use tpi_bmcd.Base.Tests.{ltb, Bool-cases, if◌then◌else◌}
use tpi_bmcd.Base.Text.{digits_value}

-- A digit below 16.
abbrev pub digit : ℕ → Char
digit zero = "0"
digit (suc zero) = "1"
digit (suc (suc zero)) = "2"
digit (suc (suc (suc zero))) = "3"
digit (suc (suc (suc (suc zero)))) = "4"
digit (suc (suc (suc (suc (suc zero))))) = "5"
digit (suc (suc (suc (suc (suc (suc zero)))))) = "6"
digit (suc (suc (suc (suc (suc (suc (suc zero))))))) = "7"
digit (suc (suc (suc (suc (suc (suc (suc (suc zero)))))))) = "8"
digit (suc (suc (suc (suc (suc (suc (suc (suc (suc zero))))))))) = "9"
digit (suc (suc (suc (suc (suc (suc (suc (suc (suc (suc zero)))))))))) = "a"
digit (suc (suc (suc (suc (suc (suc (suc (suc (suc (suc (suc zero))))))))))) = "b"
digit (suc (suc (suc (suc (suc (suc (suc (suc (suc (suc (suc (suc zero)))))))))))) = "c"
digit (suc (suc (suc (suc (suc (suc (suc (suc (suc (suc (suc (suc (suc zero))))))))))))) = "d"
digit (suc (suc (suc (suc (suc (suc (suc (suc (suc (suc (suc (suc (suc (suc zero)))))))))))))) = "e"
digit _ = "f"

-- The digits of a number in front of a text. The fuel is enough if it is more than the number.
unfoldable pub in_base : ℕ → ℕ → ℕ → String → String
in_base base zero n s = s
in_base base (suc fuel) n s =
    let rest = in_base base fuel (n / base) (String.◌∷◌ (digit (n % base)) s) in
    if ltb n base then String.◌∷◌ (digit n) s else rest

unfoldable pub to_string : ℕ → String
unfolding in_base
to_string n = in_base 10 (suc n) n ""

unfoldable pub to_hex : ℕ → String
unfolding in_base
to_hex n = in_base 16 (suc n) n ""

code-digit : (d : ℕ) → d < 10 → code (digit d) ≡ b'0' + d
code-digit zero h = refl
code-digit (suc zero) h = refl
code-digit (suc (suc zero)) h = refl
code-digit (suc (suc (suc zero))) h = refl
code-digit (suc (suc (suc (suc zero)))) h = refl
code-digit (suc (suc (suc (suc (suc zero))))) h = refl
code-digit (suc (suc (suc (suc (suc (suc zero)))))) h = refl
code-digit (suc (suc (suc (suc (suc (suc (suc zero))))))) h = refl
code-digit (suc (suc (suc (suc (suc (suc (suc (suc zero)))))))) h = refl
code-digit (suc (suc (suc (suc (suc (suc (suc (suc (suc zero))))))))) h = refl
code-digit (suc (suc (suc (suc (suc (suc (suc (suc (suc (suc d)))))))))) h = absurd (omega arith)

digits_value-digit :
    (d acc : ℕ) (s : String)
    → d < 10
    → digits_value (String.◌∷◌ (digit d) s) acc ≡ digits_value s (acc * 10 + d)
unfolding digits_value
digits_value-digit d acc s h =
    let low : ltb (b'0' + d) b'0' ≡ false = ground arith in
    let high : ltb b'9' (b'0' + d) ≡ false = ground arith in
    rw (code-digit d h, low, high) (ap (digits_value s) (omega arith))

digits_value-in_base :
    (fuel n : ℕ) (s : String) → n < fuel → digits_value (in_base 10 fuel n s) 0 ≡ digits_value s n
unfolding in_base
digits_value-in_base zero n s h = absurd (omega arith)
digits_value-in_base (suc fuel) n s h = elim (Bool-cases (ltb n 10)) [
  | inl small ↦
      rw small (digits_value-digit n 0 s (ground arith) ∙ ap (digits_value s) (omega arith))
  | inr large ↦ rw large (
      digits_value-in_base fuel (n / 10) (String.◌∷◌ (digit (n % 10)) s) (ground arith)
      ∙ digits_value-digit (n % 10) (n / 10) s (omega arith)
      ∙ ap (digits_value s) (omega arith))
]

-- The digits of a number have its value.
pub digits_value-to_string : (n : ℕ) → digits_value (to_string n) 0 ≡ some n
unfolding to_string digits_value
digits_value-to_string n = digits_value-in_base (suc n) n "" (omega arith)
