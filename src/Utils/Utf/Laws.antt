-- ===== src/Utils/Utf/Laws.antt =====
-- Texts that are decoded as they were encoded, and decoding of any bytes.
use tpi_bmcd.Base.{
  ℕ, ◌+◌, ◌-◌, ◌<◌, map, length-append, Bool-cases, inl, inr, ◌/◌, ◌%◌, ◌≡◌, refl, ap, ltb, not,
  ◌&&◌, Bool, true, false, if◌then◌else◌, none, some, List, [], ◌∷◌, ◌++◌, length, append-nil,
  arith,
}
use tpi_bmcd.Utils.Utf.{
  is_low, replacement_character, is_high, is_surrogate, u16s, decode_utf16, string_from_utf16,
  char_from_u32, string_from_utf32, u32_from_bytes,
}

-- A Unicode scalar value.
abbrev pub is_scalar : ℕ → Bool
is_scalar c = not (is_surrogate c) && ltb c 0x110000

abbrev pub all_of : (ℕ → Bool) → List ℕ → Bool
all_of p [] = true
all_of p (x ∷ xs) = p x && all_of p xs

-- The code units of a scalar value, as the Unicode standard defines UTF-16.
abbrev pub units : ℕ → List ℕ
units c =
    if ltb c 0x10000
    then c ∷ []
    else (0xd800 + (c - 0x10000) / 1024) ∷ (0xdc00 + (c - 0x10000) % 1024) ∷ []

abbrev pub to_units : List ℕ → List ℕ
to_units [] = []
to_units (c ∷ cs) = units c ++ to_units cs

abbrev pub unit_bytes : Bool → List ℕ → List ℕ
unit_bytes little_endian [] = []
unit_bytes little_endian (u ∷ us) =
    if little_endian
    then (u % 256) ∷ (u / 256) ∷ unit_bytes little_endian us
    else (u / 256) ∷ (u % 256) ∷ unit_bytes little_endian us

abbrev pub encode_utf16 : Bool → List ℕ → List ℕ
encode_utf16 little_endian cs = unit_bytes little_endian (to_units cs)

u16s-unit_bytes : (e : Bool) (us : List ℕ) → u16s e (unit_bytes e us) ≡ us
unfolding u16s
u16s-unit_bytes e [] = refl
u16s-unit_bytes true (u ∷ us) = rw (u16s-unit_bytes true us) (ap (λ x. x ∷ us) (omega arith))
u16s-unit_bytes false (u ∷ us) = rw (u16s-unit_bytes false us) (ap (λ x. x ∷ us) (omega arith))

even_bytes : (e : Bool) (us : List ℕ) → length (unit_bytes e us) % 2 ≡ 0
even_bytes e [] = refl
even_bytes true (u ∷ us) = omega (arith, even_bytes true us)
even_bytes false (u ∷ us) = omega (arith, even_bytes false us)

decode-units :
    (c : ℕ) (us : List ℕ)
    → is_scalar c ≡ true
    → decode_utf16 none (units c ++ us) ≡ c ∷ decode_utf16 none us
unfolding decode_utf16
decode-units c us h = ground arith

decode-to_units : (cs : List ℕ) → all_of is_scalar cs ≡ true → decode_utf16 none (to_units cs) ≡ cs
unfolding decode_utf16
decode-to_units [] h = refl
decode-to_units (c ∷ cs) h = ground (arith, decode-units c (to_units cs), decode-to_units cs)

string_from_utf16-encode_utf16 :
    (e : Bool) (cs : List ℕ)
    → all_of is_scalar cs ≡ true
    → string_from_utf16 (encode_utf16 e cs) e ≡ cs
unfolding string_from_utf16
string_from_utf16-encode_utf16 e cs h =
    rw (u16s-unit_bytes e (to_units cs), decode-to_units cs h, even_bytes e (to_units cs))
      (append-nil cs)

-- The four bytes of each scalar value.
abbrev pub encode_utf32 : Bool → List ℕ → List ℕ
encode_utf32 little_endian [] = []
encode_utf32 little_endian (c ∷ cs) =
    let rest = encode_utf32 little_endian cs in
    if little_endian
    then (c % 256) ∷ (c / 256 % 256) ∷ (c / 65536 % 256) ∷ (c / 16777216) ∷ rest
    else (c / 16777216) ∷ (c / 65536 % 256) ∷ (c / 256 % 256) ∷ (c % 256) ∷ rest

whole_little :
    (c : ℕ) → u32_from_bytes true (c % 256) (c / 256 % 256) (c / 65536 % 256) (c / 16777216) ≡ c
whole_little c = omega arith

whole_big :
    (c : ℕ) → u32_from_bytes false (c / 16777216) (c / 65536 % 256) (c / 256 % 256) (c % 256) ≡ c
whole_big c = omega arith

char_of_scalar : (c : ℕ) → is_scalar c ≡ true → char_from_u32 c ≡ c
char_of_scalar c h = ground arith

string_from_utf32-encode_utf32 :
    (e : Bool) (cs : List ℕ)
    → all_of is_scalar cs ≡ true
    → string_from_utf32 (encode_utf32 e cs) e ≡ cs
unfolding string_from_utf32
string_from_utf32-encode_utf32 e [] h = refl
string_from_utf32-encode_utf32 true (c ∷ cs) h =
    rw
      (
        whole_little c,
        char_of_scalar c (ground arith),
        string_from_utf32-encode_utf32 true cs (ground arith),
      )
      refl
string_from_utf32-encode_utf32 false (c ∷ cs) h =
    rw
      (
        whole_big c,
        char_of_scalar c (ground arith),
        string_from_utf32-encode_utf32 false cs (ground arith),
      )
      refl

-- A text of Unicode scalar values that was encoded in UTF-16 or in UTF-32, in either byte order, is read
-- back as it was.
pub decoders_invert :
    (e : Bool) (cs : List ℕ)
    → all_of is_scalar cs ≡ true
    → (string_from_utf16 (encode_utf16 e cs) e ≡ cs)
      × (string_from_utf32 (encode_utf32 e cs) e ≡ cs)
decoders_invert e cs h =
    (string_from_utf16-encode_utf16 e cs h, string_from_utf32-encode_utf32 e cs h)

-- A code point as a decoder gives it.
abbrev pub mended : ℕ → ℕ
mended c = if is_scalar c then c else replacement_character

abbrev starts_low : List ℕ → Bool
starts_low [] = false
starts_low (c ∷ cs) = is_low c

-- No two code points in a row make up a surrogate pair.
abbrev pub unpaired : List ℕ → Bool
unpaired [] = true
unpaired (c ∷ cs) = not (is_high c && starts_low cs) && unpaired cs

abbrev pub in_range : ℕ → Bool
in_range c = ltb c 0x110000

decode_mended :
    (cs : List ℕ)
    → all_of in_range cs ≡ true
    → unpaired cs ≡ true
    → (decode_utf16 none (to_units cs) ≡ map mended cs)
      × ((h : ℕ)
          → is_high h ≡ true
          → starts_low cs ≡ false
          → decode_utf16 (some h) (to_units cs) ≡ replacement_character ∷ map mended cs)
unfolding decode_utf16
decode_mended [] r p = (refl, λ h k s. refl)
decode_mended (c ∷ cs) r p =
    let rest = decode_mended cs (ground arith) (ground arith) in
    elim (Bool-cases (is_high c)) [
      | inl high ↦
          (let waiting = rest.1 c high (ground arith) in
            (ground (arith, waiting), λ h k s. ground (arith, waiting)))
      | inr low ↦ (ground (arith, rest.0), λ h k s. ground (arith, rest.0))
    ]

u16s-odd : (e : Bool) (us : List ℕ) (b : ℕ) → u16s e (unit_bytes e us ++ b ∷ []) ≡ us
unfolding u16s
u16s-odd e [] b = refl
u16s-odd true (u ∷ us) b = rw (u16s-odd true us b) (ap (λ x. x ∷ us) (omega arith))
u16s-odd false (u ∷ us) b = rw (u16s-odd false us b) (ap (λ x. x ∷ us) (omega arith))

odd_bytes : (e : Bool) (us : List ℕ) (b : ℕ) → length (unit_bytes e us ++ b ∷ []) % 2 ≡ 1
odd_bytes e us b = omega (arith, even_bytes e us, length-append (unit_bytes e us) (b ∷ []))

char_mended : (c : ℕ) → char_from_u32 c ≡ mended c
char_mended c = ground arith

string_from_utf32-mended :
    (e : Bool) (cs short : List ℕ)
    → 0 < length short
    → length short < 4
    → string_from_utf32 (encode_utf32 e cs ++ short) e ≡ map mended cs ++ replacement_character ∷ []
unfolding string_from_utf32
string_from_utf32-mended e [] [] h k = absurd (omega arith)
string_from_utf32-mended e [] (a ∷ []) h k = refl
string_from_utf32-mended e [] (a ∷ b ∷ []) h k = refl
string_from_utf32-mended e [] (a ∷ b ∷ c ∷ []) h k = refl
string_from_utf32-mended e [] (a ∷ b ∷ c ∷ d ∷ short) h k = absurd (omega arith)
string_from_utf32-mended true (c ∷ cs) short h k =
    rw (whole_little c, char_mended c, string_from_utf32-mended true cs short h k) refl
string_from_utf32-mended false (c ∷ cs) short h k =
    rw (whole_big c, char_mended c, string_from_utf32-mended false cs short h k) refl

-- A damaged text loses no more than what is damaged. The code points may be surrogates, if no two in a
-- row make up a pair, and a unit may be cut short at the end: in UTF-16 and in UTF-32, of either byte
-- order, each surrogate and the unit at the end are read as one replacement character, and all scalar
-- values around them as they were.
pub decoders_mend :
    (e : Bool) (cs : List ℕ) (b : ℕ) (short : List ℕ)
    → all_of in_range cs ≡ true
    → unpaired cs ≡ true
    → 0 < length short
    → length short < 4
    → (string_from_utf16 (encode_utf16 e cs ++ b ∷ []) e
        ≡ map mended cs ++ replacement_character ∷ [])
      × (string_from_utf32 (encode_utf32 e cs ++ short) e
          ≡ map mended cs ++ replacement_character ∷ [])
unfolding string_from_utf16
decoders_mend e cs b short r p h k = (
  rw (u16s-odd e (to_units cs) b, (decode_mended cs r p).0, odd_bytes e (to_units cs) b) refl,
  string_from_utf32-mended e cs short h k,
)
