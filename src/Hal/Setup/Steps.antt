-- ===== src/Hal/Setup/Steps.antt =====
-- What the single requests and look-ups hold.
use tpi_bmcd.Base.{
  ℕ, ◌≡◌, inl, inr, refl, Bool, true, false, String, Bool-cases, Option-cases, some, List, [], ◌∷◌,
  get_elem?,
}
use tpi_bmcd.Base.Assoc.{lookup, text_key}
use tpi_bmcd.Base.Exec.{◌>>=◌}
use tpi_bmcd.Hal.Setup.{
  Chip, Lines, Board, Setup, load_lines, line, open_chip, gpio_output_lines, gpio_output_array,
  chip1_path,
}
use tpi_bmcd.Hal.Setup.Labels.{line_found, named, name_at, label, labels, After, after-bind}

module _ (board : Board) where
  pub open_chip_lem :
      (path : String) (g : List Lines)
      → After (open_chip board path g) (λ c g'. (board.chip path ≡ some c) × (g' ≡ g))
  unfolding open_chip
  open_chip_lem path g = elim (Option-cases (board.chip path)) [
    | inl e ↦ rw (e, open_chip) tt
    | inr (c, e) ↦ rw (e, open_chip) (refl, refl)
  ]

  line_lem :
      (chip : Chip) (name : String) (g : List Lines)
      → After (line chip name g) (λ k g'. (get_elem? chip k ≡ some (some name)) × (g' ≡ g))
  unfolding line
  line_lem chip name g = elim (Option-cases (lookup name (load_lines chip))) [
    | inl e ↦ rw (e, line) tt
    | inr (k, e) ↦ rw (e, line) (line_found chip name k e, refl)
  ]

  pub output_lem :
      (path : String) (ks : List ℕ) (g : List Lines)
      → After (gpio_output_lines board path ks g) (λ l g'. g' ≡ (path, ks) ∷ g)
  unfolding gpio_output_lines
  output_lem path ks g = elim (Bool-cases (board.grants g (path, ks))) [
    | inl e ↦ rw e refl
    | inr e ↦ rw e tt
  ]

  label-named :
      (latching : Bool) (chip : Chip) (k : ℕ) (name : String)
      → board.chip (chip1_path latching) ≡ some chip
      → get_elem? chip k ≡ some (some name)
      → label board (chip1_path latching, k) ≡ named name
  label-named true chip k name opened found = rw opened (rw (found, name_at) refl)
  label-named false chip k name opened found = rw opened (rw (found, name_at) refl)

  -- Of four requests, one for each line, all are held.
  pub output_array_lem :
      (path : String) (i1 i2 i3 i4 : ℕ) (g : List Lines)
      → After (gpio_output_array board path i1 i2 i3 i4 g) (λ _ g'.
        labels board g'
        ≡ label board (path, i4)
          ∷ label board (path, i3)
          ∷ label board (path, i2)
          ∷ label board (path, i1)
          ∷ labels board g)
  unfolding gpio_output_array
  output_array_lem path i1 i2 i3 i4 g =
      after-bind _ _ _ (request i1) g (output_lem path (i1 ∷ []) g) (λ _ g1 e1.
        after-bind _ _ _ (request i2) g1 (output_lem path (i2 ∷ []) g1) (λ _ g2 e2.
          after-bind _ _ _ (request i3) g2 (output_lem path (i3 ∷ []) g2) (λ _ g3 e3.
            after-bind _ _ _ (request i4) g3 (output_lem path (i4 ∷ []) g3)
              (λ _ g4 e4. rw (e4, e3, e2, e1) refl))))
    where
      request : ℕ → Setup Lines
      request i = gpio_output_lines board path (i ∷ [])

  -- Four lines looked up by name.
  module _ {A : Type 0} (latching : Bool) (chip : Chip)
      (opened : board.chip (chip1_path latching) ≡ some chip) (f : ℕ → ℕ → ℕ → ℕ → Setup A)
      (P : A → List Lines → Type 0) where
    abbrev pub Named : ℕ → String → Type 0
    Named i name = label board (chip1_path latching, i) ≡ named name

    pub four_lines_lem :
        (n1 n2 n3 n4 : String) (g : List Lines)
        → ((i1 i2 i3 i4 : ℕ)
            → Named i1 n1
            → Named i2 n2
            → Named i3 n3
            → Named i4 n4
            → After (f i1 i2 i3 i4 g) P)
        → After
            ((line chip n1 >>= λ i1.
                line chip n2 >>= λ i2. line chip n3 >>= λ i3. line chip n4 >>= λ i4. f i1 i2 i3 i4)
              g)
            P
    four_lines_lem n1 n2 n3 n4 g k =
        after-bind _ _ _ (line chip n1) g (line_lem chip n1 g) (λ i1 g1 (e1, s1).
          after-bind _ _ _ (line chip n2) g1 (line_lem chip n2 g1) (λ i2 g2 (e2, s2).
            after-bind _ _ _ (line chip n3) g2 (line_lem chip n3 g2) (λ i3 g3 (e3, s3).
              after-bind _ _ _ (line chip n4) g3 (line_lem chip n4 g3) (λ i4 g4 (e4, s4).
                rw (s4, s3, s2, s1)
                  (k i1 i2 i3 i4 (found i1 n1 e1) (found i2 n2 e2) (found i3 n3 e3)
                    (found i4 n4 e4))))))
      where
        found : (i : ℕ) (name : String) → get_elem? chip i ≡ some (some name) → Named i name
        found i name e = label-named latching chip i name opened e
