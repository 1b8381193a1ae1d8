-- ===== src/App/Info/Laws.antt =====
-- What is read of /etc/os-release.
use tpi_bmcd.Base.{
  ◌≡◌, ◌∙◌, ap, refl, if◌then◌else◌, String, str_eq, Option, none, some, List, [], ◌∷◌, map,
}
use tpi_bmcd.Base.Text.{split_once}
use tpi_bmcd.Base.Assoc.{lookup, insert, text_key, lookup-insert}
use tpi_bmcd.App.Info.{release_lines}

-- The value that the last line for a key gives, `o` if no line does.
abbrev pub last_value : String → List String → Option String → Option String
last_value key [] o = o
last_value key (line ∷ lines) o = elim (split_once b'=' line) [
  | none ↦ last_value key lines o
  | some (k, v) ↦ last_value key lines (if str_eq k key then some v else o)
]

-- A file that is read yields one value for each key, that of the last line with it.
pub lookup-release_lines :
    (key : String) (lines : List String) (m : List (String × String))
    → (r : List (String × String)) × (release_lines (map some lines) m ≡ some r)
      × (lookup key r ≡ last_value key lines (lookup key m))
unfolding release_lines
lookup-release_lines key [] m = (m, refl, refl)
lookup-release_lines key (line ∷ lines) m =
    step (λ m'. lookup-release_lines key lines m') (split_once b'=' line)
  where
    step :
        ((m' : List (String × String))
          → (r : List (String × String)) × (release_lines (map some lines) m' ≡ some r)
            × (lookup key r ≡ last_value key lines (lookup key m')))
        → (o : Option (String × String))
        → (r : List (String × String)) × ((elim o [
          | none ↦ release_lines (map some lines) m
          | some (k, v) ↦ release_lines (map some lines) (insert k v m)
        ])
            ≡ some r)
          × (lookup key r ≡ (elim o [
            | none ↦ last_value key lines (lookup key m)
            | some (k, v) ↦ last_value key lines (if str_eq k key then some v else lookup key m)
          ]))
    step ih none = ih m
    step ih (some (k, v)) =
        let (r, e, found) = ih (insert k v m) in
        (r, e, found ∙ ap (last_value key lines) (lookup-insert k key v m))
