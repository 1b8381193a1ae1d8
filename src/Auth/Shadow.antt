-- ===== src/Auth/Shadow.antt =====
-- bmcd/src/authentication/linux_authenticator.rs: the users of /etc/shadow.
pub mod Laws
use tpi_bmcd.Base.{if◌then◌else◌, String, Option, none, some, List, [], ◌∷◌}
use tpi_bmcd.Base.Text.{split_once, starts_with_char}

-- The second item of `line.splitn(3, ':')`, from what follows the first colon.
abbrev second_item : Option (String × String) → String → String
second_item none rest = rest
second_item (some (pass, _)) rest = pass

-- The first two items, if there are two.
unfoldable pub user_and_pass : String → Option (String × String)
user_and_pass line = elim (split_once b':' line) [
  | none ↦ none
  | some (user, rest) ↦ some (user, second_item (split_once b':' rest) rest)
]

-- The loop over the lines of the file: a line with no colon ends it.
unfoldable pub parse_shadow_file : List String → List (String × String)
parse_shadow_file [] = []
parse_shadow_file (line ∷ rest) =
    let entries = parse_shadow_file rest in
    elim (user_and_pass line) [
      | none ↦ []
      | some (user, pass) ↦ if starts_with_char b'*' pass then entries else (user, pass) ∷ entries
    ]
