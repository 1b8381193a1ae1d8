-- ===== src/Base/Text.antt =====
-- Texts that the program walks: splitting at a character, and reading numbers.
use Prim.Native.Char.{Char, code}
use Prim.Native.String.{String}
use mathlib.Core.Bool.{◌&&◌, ◌||◌}
use tpi_bmcd.Base.Tests.{◌==◌, ltb, leb, if◌then◌else◌}
use tpi_bmcd.Base.Signed.{ℤ, pos, negsuc}
use Prim.Native.Nat.{ℕ, zero, suc, ◌+◌, ◌-◌, ◌*◌, ◌^◌}
use mathlib.Core.Option.{Option, none, some}

-- `s.split_once(sep)`: the parts before and after the first `sep`.
unfoldable pub split_once : ℕ → String → Option (String × String)
split_once sep String.[] = none
split_once sep (String.◌∷◌ c s) =
    if code c == sep then some (String.[], s) else elim (split_once sep s) [
      | none ↦ none
      | some (before, after) ↦ some (String.◌∷◌ c before, after)
    ]

-- `s.starts_with(c)` for one character.
abbrev pub starts_with_char : ℕ → String → mathlib.Core.Bool.Bool
starts_with_char c String.[] = mathlib.Core.Bool.false
starts_with_char c (String.◌∷◌ d s) = code d == c

-- The decimal digits of a number, behind those that make up `acc`.
unfoldable pub digits_value : String → ℕ → Option ℕ
digits_value String.[] acc = some acc
digits_value (String.◌∷◌ c s) acc =
    let rest = digits_value s (acc * 10 + (code c - b'0')) in
    if ltb (code c) b'0' then none else if ltb b'9' (code c) then none else rest

-- At least one digit.
unfoldable pub unsigned : String → Option ℕ
unfolding digits_value
unsigned String.[] = none
unsigned (String.◌∷◌ c s) = digits_value (String.◌∷◌ c s) 0

abbrev pub below : ℕ → Option ℕ → Option ℕ
below bound none = none
below bound (some n) = if ltb n bound then some n else none

-- `from_str` of an unsigned type with `bound` values: digits, behind a plus sign or none.
unfoldable pub parse_unsigned : ℕ → String → Option ℕ
parse_unsigned bound String.[] = none
parse_unsigned bound (String.◌∷◌ c s) =
    below bound (if code c == b'+' then unsigned s else unsigned (String.◌∷◌ c s))

abbrev positive : Option ℕ → Option ℤ
positive none = none
positive (some n) = some (pos n)

abbrev negative : Option ℕ → Option ℤ
negative none = none
negative (some zero) = some (pos 0)
negative (some (suc n)) = some (negsuc n)

-- `i32::from_str`: digits, behind a sign or none, within the range.
unfoldable pub parse_i32 : String → Option ℤ
unfolding parse_unsigned
parse_i32 String.[] = none
parse_i32 (String.◌∷◌ c s) =
    if code c == b'-'
    then negative (below (2 ^ 31 + 1) (unsigned s))
    else positive (parse_unsigned (2 ^ 31) (String.◌∷◌ c s))

-- `s.starts_with(prefix)`
unfoldable pub starts_with : String → String → mathlib.Core.Bool.Bool
starts_with s String.[] = mathlib.Core.Bool.true
starts_with String.[] (String.◌∷◌ p prefix) = mathlib.Core.Bool.false
starts_with (String.◌∷◌ c s) (String.◌∷◌ p prefix) =
    let rest = starts_with s prefix in if code c == code p then rest else mathlib.Core.Bool.false

-- `haystack.contains(needle)`
unfoldable pub contains : String → String → mathlib.Core.Bool.Bool
unfolding starts_with
contains String.[] needle = starts_with "" needle
contains (String.◌∷◌ c s) needle =
    let rest = contains s needle in
    if starts_with (String.◌∷◌ c s) needle then mathlib.Core.Bool.true else rest

-- `char::is_whitespace`
abbrev pub is_whitespace : ℕ → mathlib.Core.Bool.Bool
is_whitespace c =
    (leb 9 c && leb c 13)
    || c == 32
    || c == 0x85
    || c == 0xA0
    || c == 0x1680
    || (leb 0x2000 c && leb c 0x200A)
    || c == 0x2028
    || c == 0x2029
    || c == 0x202F
    || c == 0x205F
    || c == 0x3000

-- `s.trim_end_matches(p)` and `s.trim_start_matches(p)` for a test of characters.
unfoldable pub trim_end_matches : (ℕ → mathlib.Core.Bool.Bool) → String → String
trim_end_matches p String.[] = String.[]
trim_end_matches p (String.◌∷◌ c s) = elim (trim_end_matches p s) [
  | String.[] ↦ if p (code c) then String.[] else String.◌∷◌ c String.[]
  | String.◌∷◌ d r ↦ String.◌∷◌ c (String.◌∷◌ d r)
]

unfoldable pub trim_start_matches : (ℕ → mathlib.Core.Bool.Bool) → String → String
trim_start_matches p String.[] = String.[]
trim_start_matches p (String.◌∷◌ c s) =
    let rest = trim_start_matches p s in if p (code c) then rest else String.◌∷◌ c s

-- `s.trim()`
unfoldable pub trim : String → String
unfolding trim_end_matches trim_start_matches
trim s = trim_start_matches is_whitespace (trim_end_matches is_whitespace s)

-- `s.replace(from, to)` for one character by another.
unfoldable pub replace_char : ℕ → Char → String → String
replace_char from to String.[] = String.[]
replace_char from to (String.◌∷◌ c s) =
    String.◌∷◌ (if code c == from then to else c) (replace_char from to s)
