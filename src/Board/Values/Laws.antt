-- ===== src/Board/Values/Laws.antt =====
-- What the printed values tell.
use Prim.Native.Char.{Char, code}
use tpi_bmcd.Base.{
  ℕ, zero, suc, ◌+◌, ◌-◌, ◌*◌, ◌/◌, ◌%◌, ◌<◌, ◌≤◌, ◌⊎◌, inl, inr, Bool-cases, ◌≡◌, refl, ap, ◌∙◌,
  leb, ltb, ◌==◌, Bool, true, if◌then◌else◌, String, some, List, [], ◌∷◌, length, length-take, take,
  drop, Result, ok, err, all_below, all_below_sound, ==_iff, arith,
}
use tpi_bmcd.Base.Print.{digit}
use tpi_bmcd.Board.{BoardInfo, from_bytes}
use tpi_bmcd.Board.Values.{
  mac, value_of, mac_text, load, from_reader, find_i2c_device, I2cDevice, unexpected_end,
}

-- The value of a hexadecimal digit.
abbrev pub digit_value : Char → ℕ
digit_value c = if leb (code c) b'9' then code c - b'0' else code c - b'a' + 10

-- Pairs of digits as bytes, the inverse of crate `hex`.
abbrev pub read_pairs : String → List ℕ
read_pairs String.[] = []
read_pairs (String.◌∷◌ c String.[]) = []
read_pairs (String.◌∷◌ c (String.◌∷◌ d s)) = (digit_value c * 16 + digit_value d) ∷ read_pairs s

abbrev pub AllBytes : List ℕ → Type 0
AllBytes [] = Unit
AllBytes (b ∷ bytes) = (b < 256) × AllBytes bytes

all_digits : all_below 16 (λ d. digit_value (digit d) == d) ≡ true
unfolding all_below
all_digits = refl

digit_value-digit : (d : ℕ) → d < 16 → digit_value (digit d) ≡ d
digit_value-digit d h =
    (==_iff _ d).0 (all_below_sound (λ k. digit_value (digit k) == k) 16 d all_digits h)

-- The printed mac of a record shows each of its bytes, by two hexadecimal digits.
read_pairs-mac_text : (bytes : List ℕ) → AllBytes bytes → read_pairs (mac_text bytes) ≡ bytes
unfolding mac_text
read_pairs-mac_text [] h = refl
read_pairs-mac_text (b ∷ bytes) h =
    let high = digit_value-digit (b / 16) (omega (arith, h.0)) in
    let low = digit_value-digit (b % 16) (omega arith) in
    ap (λ t. t ∷ read_pairs (mac_text bytes)) (rw (high, low) (omega arith))
    ∙ ap (λ t. b ∷ t) (read_pairs-mac_text bytes h.1)

then_side : {A : Type 0} {t : Bool} (x y : A) → t ≡ true → (if t then x else y) ≡ x
then_side x y e = rw e refl

-- Of 50 bytes the record is read, and the last six of them are its mac.
from_bytes_whole :
    (bytes : List ℕ)
    → length bytes ≡ 50
    → (b : BoardInfo) × (from_bytes bytes ≡ some b) × (b.mac ≡ take 6 (drop 44 bytes))
unfolding from_bytes
from_bytes_whole [] h = absurd (omega arith)
from_bytes_whole (r1 ∷ []) h = absurd (omega arith)
from_bytes_whole (r1 ∷ r0 ∷ []) h = absurd (omega arith)
from_bytes_whole (r1 ∷ r0 ∷ c3 ∷ []) h = absurd (omega arith)
from_bytes_whole (r1 ∷ r0 ∷ c3 ∷ c2 ∷ []) h = absurd (omega arith)
from_bytes_whole (r1 ∷ r0 ∷ c3 ∷ c2 ∷ c1 ∷ []) h = absurd (omega arith)
from_bytes_whole (r1 ∷ r0 ∷ c3 ∷ c2 ∷ c1 ∷ c0 ∷ []) h = absurd (omega arith)
from_bytes_whole (r1 ∷ r0 ∷ c3 ∷ c2 ∷ c1 ∷ c0 ∷ h0 ∷ []) h = absurd (omega arith)
from_bytes_whole (r1 ∷ r0 ∷ c3 ∷ c2 ∷ c1 ∷ c0 ∷ h0 ∷ h1 ∷ []) h = absurd (omega arith)
from_bytes_whole (r1 ∷ r0 ∷ c3 ∷ c2 ∷ c1 ∷ c0 ∷ h0 ∷ h1 ∷ w0 ∷ []) h = absurd (omega arith)
from_bytes_whole (r1 ∷ r0 ∷ c3 ∷ c2 ∷ c1 ∷ c0 ∷ h0 ∷ h1 ∷ w0 ∷ w1 ∷ []) h = absurd (omega arith)
from_bytes_whole (r1 ∷ r0 ∷ c3 ∷ c2 ∷ c1 ∷ c0 ∷ h0 ∷ h1 ∷ w0 ∷ w1 ∷ d0 ∷ []) h =
    absurd (omega arith)
from_bytes_whole (r1 ∷ r0 ∷ c3 ∷ c2 ∷ c1 ∷ c0 ∷ h0 ∷ h1 ∷ w0 ∷ w1 ∷ d0 ∷ d1 ∷ rest) h =
    let size : (length (take 38 rest) == 38) ≡ true = ground (arith, length-take 38 rest) in
    (_, then_side _ _ size, refl)

AllBytes-take : (n : ℕ) (bytes : List ℕ) → AllBytes bytes → AllBytes (take n bytes)
AllBytes-take zero bytes h = tt
AllBytes-take (suc n) [] h = tt
AllBytes-take (suc n) (b ∷ bytes) h = (h.0, AllBytes-take n bytes h.1)

AllBytes-drop : (n : ℕ) (bytes : List ℕ) → AllBytes bytes → AllBytes (drop n bytes)
AllBytes-drop zero bytes h = h
AllBytes-drop (suc n) [] h = tt
AllBytes-drop (suc n) (b ∷ bytes) h = AllBytes-drop n bytes h.1

module _ (from_utf8_lossy : List ℕ → String) (date_text : ℕ → String) where
  -- Once an eeprom is found and opened, loading the record never panics: with fewer than 50 bytes it is
  -- an error, and else a record whose printed mac gives, in pairs of hexadecimal digits, exactly the
  -- last six of the first 50 bytes.
  pub load_lem :
      (entries : List (Result ℕ I2cDevice)) (bytes : List ℕ)
      → find_i2c_device entries ≡ ok (ok bytes)
      → AllBytes bytes
      → ((length bytes < 50) × (load (ok entries) ≡ some (err unexpected_end)))
        ⊎ ((b : BoardInfo) × (load (ok entries) ≡ some (ok b))
            × (read_pairs (value_of from_utf8_lossy date_text mac b)
                ≡ take 6 (drop 44 (take 50 bytes))))
  unfolding load from_reader value_of
  load_lem entries bytes found h = elim (Bool-cases (ltb (length bytes) 50)) [
    | inl short ↦ inl (ground arith, ground (arith, found, short))
    | inr long ↦
        (let record50 = take 50 bytes in
          let at_least : 50 ≤ length bytes = ground arith in
          let size : length record50 ≡ 50 = omega (arith, length-take 50 bytes, at_least) in
          let (b, e, last) = from_bytes_whole record50 size in
          inr (
            b,
            ground (arith, found, long, e),
            ap (λ t. read_pairs (mac_text t)) last
                ∙ read_pairs-mac_text (take 6 (drop 44 record50)) (
                    AllBytes-take 6 (drop 44 record50)
                      (AllBytes-drop 44 record50 (AllBytes-take 50 bytes h))),
          ))
  ]
