-- ===== src/Utils/Utf.antt =====
-- bmcd/src/utils.rs: text in UTF-16 and UTF-32 of either byte order. A string is the list of its code
-- points.
pub mod Laws
use tpi_bmcd.Base.{
  ℕ, ◌+◌, ◌-◌, ◌*◌, ◌%◌, ◌==◌, ltb, leb, not, ◌&&◌, Bool, true, false, if◌then◌else◌, Option, none,
  some, List, [], ◌∷◌, ◌++◌, length,
}

-- `char::REPLACEMENT_CHARACTER`
abbrev pub replacement_character : ℕ
replacement_character = 0xfffd

abbrev pub is_high : ℕ → Bool
is_high u = leb 0xd800 u && ltb u 0xdc00

abbrev pub is_low : ℕ → Bool
is_low u = leb 0xdc00 u && ltb u 0xe000

abbrev pub is_surrogate : ℕ → Bool
is_surrogate u = leb 0xd800 u && ltb u 0xe000

-- `u16::from_le_bytes` and `u16::from_be_bytes`
abbrev pub u16_from_bytes : Bool → ℕ → ℕ → ℕ
u16_from_bytes little_endian a b = if little_endian then a + b * 256 else a * 256 + b

-- `chunks_exact(2)`: a last byte without a partner is left out.
unfoldable pub u16s : Bool → List ℕ → List ℕ
u16s little_endian [] = []
u16s little_endian (a ∷ []) = []
u16s little_endian (a ∷ b ∷ bytes) = u16_from_bytes little_endian a b ∷ u16s little_endian bytes

abbrev pub join_surrogates : ℕ → ℕ → ℕ
join_surrogates h l = 0x10000 + (h - 0xd800) * 1024 + (l - 0xdc00)

abbrev pub lone : ℕ → List ℕ
lone u = (if is_low u then replacement_character else u) ∷ []

-- The characters that a unit completes, after a high surrogate that waits or not.
abbrev pub completed : Option ℕ → ℕ → List ℕ
completed none u = if is_high u then [] else lone u
completed (some h) u =
    if is_low u
    then join_surrogates h u ∷ []
    else replacement_character ∷ (if is_high u then [] else u ∷ [])

-- `char::decode_utf16`, with `unwrap_or(char::REPLACEMENT_CHARACTER)` on each item.
unfoldable pub decode_utf16 : Option ℕ → List ℕ → List ℕ
decode_utf16 none [] = []
decode_utf16 (some h) [] = replacement_character ∷ []
decode_utf16 waiting (u ∷ us) =
    let rest = decode_utf16 (if is_high u then some u else none) us in completed waiting u ++ rest

unfoldable pub string_from_utf16 : List ℕ → Bool → List ℕ
string_from_utf16 bytes little_endian =
    decode_utf16 none (u16s little_endian bytes)
    ++ (if length bytes % 2 == 1 then replacement_character ∷ [] else [])

-- `u32::from_le_bytes` and `u32::from_be_bytes`
abbrev pub u32_from_bytes : Bool → ℕ → ℕ → ℕ → ℕ → ℕ
u32_from_bytes little_endian a b c d =
    if little_endian
    then a + b * 256 + c * 65536 + d * 16777216
    else a * 16777216 + b * 65536 + c * 256 + d

-- `char::from_u32`, with `unwrap_or(char::REPLACEMENT_CHARACTER)`.
abbrev pub char_from_u32 : ℕ → ℕ
char_from_u32 scalar =
    if is_surrogate scalar
    then replacement_character
    else if ltb 0x10ffff scalar
    then replacement_character
    else scalar

-- `chunks(4)`: the last chunk may be shorter, and then is no scalar.
unfoldable pub string_from_utf32 : List ℕ → Bool → List ℕ
string_from_utf32 (a ∷ b ∷ c ∷ d ∷ bytes) little_endian =
    char_from_u32 (u32_from_bytes little_endian a b c d) ∷ string_from_utf32 bytes little_endian
string_from_utf32 [] little_endian = []
string_from_utf32 short little_endian = replacement_character ∷ []
