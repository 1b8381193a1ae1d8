-- ===== src/Upgrade/Path.antt =====
-- What std's `Path` makes of a text.
use Prim.Native.Char.{code}
use Prim.Native.String.{String, ◌++◌}
use tpi_bmcd.Base.{◌==◌, str_eq, ◌||◌, Bool, if◌then◌else◌, Option, none, some, List, [], ◌∷◌}
use tpi_bmcd.Base.Text.{starts_with_char}

abbrev put_front : Prim.Native.Char.Char → List String → List String
put_front c [] = String.◌∷◌ c String.[] ∷ []
put_front c (part ∷ parts) = String.◌∷◌ c part ∷ parts

-- The parts between the slashes.
unfoldable pub split_path : String → List String
split_path String.[] = String.[] ∷ []
split_path (String.◌∷◌ c s) =
    let rest = split_path s in if code c == b'/' then String.[] ∷ rest else put_front c rest

-- The last part that is neither empty nor a dot, if there is one.
abbrev pub last_component : List String → Option String
last_component [] = none
last_component (part ∷ parts) = elim (last_component parts) [
  | some name ↦ some name
  | none ↦ if str_eq part "" || str_eq part "." then none else some part
]

-- `Path::file_name`
unfoldable pub file_name : String → Option String
unfolding split_path
file_name path = elim (last_component (split_path path)) [
  | none ↦ none
  | some name ↦ if str_eq name ".." then none else some name
]

-- The parts before and after the last dot.
unfoldable pub rsplit_dot : String → Option (String × String)
rsplit_dot String.[] = none
rsplit_dot (String.◌∷◌ c s) = elim (rsplit_dot s) [
  | some (before, after) ↦ some (String.◌∷◌ c before, after)
  | none ↦ if code c == b'.' then some (String.[], s) else none
]

abbrev after_dot : Option (String × String) → String
after_dot none = ""
after_dot (some (before, after)) = if str_eq before "" then "" else after

-- `path.extension().unwrap_or_default() == ext`
unfoldable pub has_extension : String → String → Bool
unfolding file_name rsplit_dot
has_extension path ext = elim (file_name path) [
  | none ↦ str_eq "" ext
  | some name ↦ str_eq (after_dot (rsplit_dot name)) ext
]

-- `PathBuf::push` on a directory: an absolute path takes its place.
unfoldable pub push : String → String → String
push dir path = if starts_with_char b'/' path then path else dir ++ "/" ++ path
