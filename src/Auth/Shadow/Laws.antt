-- ===== src/Auth/Shadow/Laws.antt =====
-- Which users the shadow file yields.
use tpi_bmcd.Base.{
  ◌≡◌, if◌then◌else◌, String, false, Bool-cases, inl, inr, Option, none, some, List, [], ◌∷◌, ◌++◌,
  arith,
}
use tpi_bmcd.Base.Text.{starts_with_char}
use tpi_bmcd.Auth.Shadow.{user_and_pass, parse_shadow_file}

-- Every line has a colon.
abbrev pub IsShadow : List String → Type 0
IsShadow [] = Unit {0}
IsShadow (line ∷ rest) = ((u : String × String) × (user_and_pass line ≡ some u)) × IsShadow rest

-- A well-formed beginning is read whole, and reading goes on behind it; but the first line without a
-- colon hides all lines after it.
pub parse_shadow_file-append :
    (good : List String) (bad : String) (rest : List String)
    → IsShadow good
    → user_and_pass bad ≡ none
    → parse_shadow_file (good ++ bad ∷ rest) ≡ parse_shadow_file good
unfolding parse_shadow_file
parse_shadow_file-append [] bad rest w h = ground arith
parse_shadow_file-append (line ∷ good) bad rest w h =
    ground (arith, parse_shadow_file-append good bad rest w.1 h)

-- No password begins with a star.
abbrev pub AllOpen : List (String × String) → Type 0
AllOpen [] = Unit {0}
AllOpen ((user, pass) ∷ rest) = (starts_with_char b'*' pass ≡ false) × AllOpen rest

-- No user whose password begins with a star is loaded.
parse_shadow_file-AllOpen : (lines : List String) → AllOpen (parse_shadow_file lines)
unfolding parse_shadow_file
parse_shadow_file-AllOpen [] = tt
parse_shadow_file-AllOpen (line ∷ rest) = keep (parse_shadow_file-AllOpen rest) (user_and_pass line)
  where
    keep :
        AllOpen (parse_shadow_file rest)
        → (o : Option (String × String))
        → AllOpen (elim o [
          | none ↦ []
          | some (user, pass) ↦
              if starts_with_char b'*' pass
              then parse_shadow_file rest
              else (user, pass) ∷ parse_shadow_file rest
        ])
    keep ih none = tt
    keep ih (some (user, pass)) = elim (Bool-cases (starts_with_char b'*' pass)) [
      | inl e ↦ rw e ih
      | inr e ↦ rw e (e, ih)
    ]
