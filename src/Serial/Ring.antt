-- ===== src/Serial/Ring.antt =====
-- The buffer that keeps the last bytes of a console: crate `circular_buffer` behind an interface.
use tpi_bmcd.Base.{
  ℕ, zero, suc, ◌+◌, ◌-◌, ◌*◌, ◌≤◌, ◌≡◌, refl, Option, some, [], ◌∷◌, ◌++◌, length, drop,
  length-append, length-drop, arith,
}
use mathlib.Core.Option
use native.Mathlib.Decide.{dec_le}
use tpi_bmcd.Utils.Io.{Bytes}

-- `OUTPUT_BUF_SIZE`
abbrev pub output_buf_size : ℕ
output_buf_size = 16 * 1024

-- The last `n` elements, or all if there are fewer.
abbrev pub last : ℕ → Bytes → Bytes
last n xs = drop (length xs - n) xs

-- `boxed`, `write` (`none` is its error) and `make_contiguous`.
pub record CircularBuffer : Type 1 where
  pub Buffer : Type 0
  pub boxed : Buffer
  pub write : Buffer → Bytes → Option Buffer
  pub contents : Buffer → Bytes

-- What the crate documents: a write always succeeds, and the oldest bytes make room for the new ones.
pub record KeepsLast (r : CircularBuffer) : Type 0 where
  pub contents-boxed : r.contents r.boxed ≡ []
  pub contents-write :
      (b : r.Buffer) (bs : Bytes)
      → Option.map r.contents (r.write b bs) ≡ some (last output_buf_size (r.contents b ++ bs))

drop-nil : (n : ℕ) → drop {A = ℕ} n [] ≡ []
drop-nil zero = refl
drop-nil (suc n) = refl

drop-drop : (m n : ℕ) (xs : Bytes) → drop m (drop n xs) ≡ drop (n + m) xs
drop-drop m zero xs = let e : 0 + m ≡ m = omega arith in rw e refl
drop-drop m (suc n) [] = rw (drop-nil m, drop-nil (suc n + m)) refl
drop-drop m (suc n) (x ∷ xs) =
    let e : suc n + m ≡ suc (n + m) = omega arith in rw e (drop-drop m n xs)

drop_within : (n : ℕ) (xs ys : Bytes) → n ≤ length xs → drop n (xs ++ ys) ≡ drop n xs ++ ys
drop_within zero xs ys h = refl
drop_within (suc n) [] ys h = absurd (omega arith)
drop_within (suc n) (x ∷ xs) ys h = drop_within n xs ys (omega arith)

-- What has been dropped is dropped again.
pub last-last : (n : ℕ) (xs ys : Bytes) → last n (last n xs ++ ys) ≡ last n (xs ++ ys)
last-last n xs ys = elim (dec_le (length xs) n) [
  | yes p ↦ let e : length xs - n ≡ 0 = omega arith in rw e refl
  | no p ↦
      let d = length xs - n in
      let front : length (drop d xs ++ ys) - n ≡ length ys =
        omega (arith, length-append (drop d xs) ys, length-drop d xs) in
      let all : length (xs ++ ys) - n ≡ d + length ys = omega (arith, length-append xs ys) in
      rw (front, all, ← drop-drop (length ys) d (xs ++ ys), drop_within d xs ys (omega arith)) refl
]
