-- ===== src/Hal/Setup/Labels.antt =====
-- The lines that are held, and what they are.
use tpi_bmcd.Base.{
  not, ◌&&◌, ◌==◌, ℕ, suc, ◌+◌, ◌≡◌, ◌≢◌, ◌⊎◌, inl, inr, ◌∙◌, ap, refl, Bool, true, false,
  if◌then◌else◌, String, str_eq, str_eq_iff, Bool-cases, Option, none, some, List, [], ◌∷◌, ◌++◌,
  map, get_elem?, Result, ok, err, arith,
}
use tpi_bmcd.Base.Assoc.{lookup, insert, text_key, lookup-insert}
use tpi_bmcd.Base.Exec.{◌>>=◌}
use tpi_bmcd.Hal.Setup.{Chip, Lines, Board, SetupError, Setup, collect, load_lines}

-- Where a name ends up: a pair that was there, or the last line of that name.
lookup-collect :
    (name : String) (i : ℕ) (chip : Chip) (m : List (String × ℕ)) (k : ℕ)
    → lookup name (collect i chip m) ≡ some k
    → (lookup name m ≡ some k) ⊎ ((j : ℕ) × (k ≡ i + j) × (get_elem? chip j ≡ some (some name)))
unfolding collect
lookup-collect name i [] m k h = inl h
lookup-collect name i (none ∷ chip) m k h = elim (lookup-collect name (i + 1) chip m k h) [
  | inl e ↦ inl e
  | inr (j, e, found) ↦ inr (suc j, omega (arith, e), found)
]
lookup-collect name i (some other ∷ chip) m k h =
    elim (lookup-collect name (i + 1) chip (insert other i m) k h) [
      | inl e ↦ elim (Bool-cases (str_eq other name)) [
        | inl same ↦ inr (
          0,
          ground (arith, e, same, lookup-insert other name i m),
          ap (λ n. some (some n)) ((str_eq_iff other name).0 same),
        )
        | inr differs ↦ inl (ground (arith, e, differs, lookup-insert other name i m))
      ]
      | inr (j, e, found) ↦ inr (suc j, omega (arith, e), found)
    ]

-- A line that is found carries the name.
pub line_found :
    (chip : Chip) (name : String) (k : ℕ)
    → lookup name (load_lines chip) ≡ some k
    → get_elem? chip k ≡ some (some name)
unfolding load_lines lookup
line_found chip name k h = elim (lookup-collect name 0 chip [] k h) [
  | inl e ↦ cc
  | inr (j, e, found) ↦ ap (get_elem? chip) (omega (arith, e)) ∙ found
]

-- The lines of requests, each with the path of its chip.
abbrev with_path : String → List ℕ → List (String × ℕ)
with_path path [] = []
with_path path (k ∷ ks) = (path, k) ∷ with_path path ks

abbrev pub lines_of : List Lines → List (String × ℕ)
lines_of [] = []
lines_of ((path, offsets) ∷ granted) = with_path path offsets ++ lines_of granted

-- What a line is: one of the first chip with a fixed offset, or one of the other chip with a name.
pub data Label : Type 0 where
  fixed : ℕ → Label
  named : String → Label
  unknown : Label

abbrev pub name_at : Option Chip → ℕ → Label
name_at none k = unknown
name_at (some chip) k = elim (get_elem? chip k) [ some (some name) ↦ named name | _ ↦ unknown ]

abbrev pub label : Board → String × ℕ → Label
label board (path, k) =
    if str_eq path "/dev/gpiochip0" then fixed k else name_at (board.chip path) k

abbrev pub labels : Board → List Lines → List Label
labels board granted = map (label board) (lines_of granted)

-- Where the code returns, the result and the state are as said.
abbrev pub After {ℓ κ ι θ} :
    {S : Type ℓ} {E : Type κ} {A : Type ι} → Result E A × S → (A → S → Type θ) → Type θ
After (ok a, s) P = P a s
After (err e, s) P = Unit

module _ {A B : Type 0} (f : A → Setup B) (Q : A → List Lines → Type 0)
    (P : B → List Lines → Type 0) where
  after-step :
      (r : Result SetupError A × List Lines)
      → After r Q
      → ((a : A) (g' : List Lines) → Q a g' → After (f a g') P)
      → After (((λ (_ : List Lines). r) >>= f) []) P
  after-step (ok a, g') q k = k a g' q
  after-step (err e, g') q k = tt

  pub after-bind :
      (m : Setup A) (g : List Lines)
      → After (m g) Q
      → ((a : A) (g' : List Lines) → Q a g' → After (f a g') P)
      → After ((m >>= f) g) P
  after-bind m g = after-step (m g)

abbrev same_label : Label → Label → Bool
same_label (fixed a) (fixed b) = a == b
same_label (named a) (named b) = str_eq a b
same_label unknown unknown = true
same_label _ _ = false

abbrev absent : Label → List Label → Bool
absent l [] = true
absent l (k ∷ ks) = not (same_label l k) && absent l ks

abbrev pub distinct : List Label → Bool
distinct [] = true
distinct (l ∷ ls) = absent l ls && distinct ls

abbrev Absent : String × ℕ → List (String × ℕ) → Type 0
Absent x [] = Unit
Absent x (y ∷ ys) = (x ≢ y) × Absent x ys

-- No line is held twice.
abbrev pub Distinct : List (String × ℕ) → Type 0
Distinct [] = Unit
Distinct (x ∷ xs) = Absent x xs × Distinct xs

same_label_self : (l : Label) → same_label l l ≡ true
same_label_self (fixed a) = ground arith
same_label_self (named a) = (str_eq_iff a a).1 refl
same_label_self unknown = refl

module _ (board : Board) where
  Absent-of_label :
      (x : String × ℕ) (ys : List (String × ℕ))
      → absent (label board x) (map (label board) ys) ≡ true
      → Absent x ys
  Absent-of_label x [] h = tt
  Absent-of_label x (y ∷ ys) h = (
    λ e. ground (
      arith,
      h,
      ap (label board) e,
      ap (same_label (label board x)) (ap (label board) e),
      same_label_self (label board x),
    ),
    Absent-of_label x ys (ground arith),
  )

  -- Lines with distinct labels are distinct.
  pub Distinct-of_labels :
      (xs : List (String × ℕ)) → distinct (map (label board) xs) ≡ true → Distinct xs
  Distinct-of_labels [] h = tt
  Distinct-of_labels (x ∷ xs) h =
      (Absent-of_label x xs (ground arith), Distinct-of_labels xs (ground arith))
