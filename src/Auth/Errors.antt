-- ===== src/Auth/Errors.antt =====
-- bmcd/src/authentication/authentication_errors.rs and passwd_validator.rs. An instant is a number of
-- nanoseconds.
use tpi_bmcd.Base.{ℕ, String, Option, none, some, Bool, not, Result, ok, err, if◌then◌else◌}
use Prim.Native.String.{◌++◌}

pub data AuthenticationError : Type 0 where
  parse_error http_parse_error scheme_not_supported no_match : String → AuthenticationError
  incorrect_credentials empty : AuthenticationError
  token_expired exceeded_allowed_attempts : ℕ → AuthenticationError

pub data Scheme : Type 0 where
  basic bearer : Scheme

pub record SchemedAuthError : Type 0 where
  pub scheme : Option Scheme
  pub error : AuthenticationError

unfoldable pub into_basic_error : AuthenticationError → SchemedAuthError
into_basic_error e = record { scheme = some basic; error = e }

unfoldable pub into_bearer_error : AuthenticationError → SchemedAuthError
into_bearer_error e = record { scheme = some bearer; error = e }

unfoldable pub into_unknown_error : AuthenticationError → SchemedAuthError
into_unknown_error e = record { scheme = none; error = e }

-- The `WWW-Authenticate` header; `shown` is the `Display` of the errors.
unfoldable pub challenge : (AuthenticationError → String) → String → SchemedAuthError → String
challenge shown realm e = elim e.scheme [
  | some basic ↦ "Basic realm=\"" ++ realm ++ "\""
  | some bearer ↦
      "Bearer realm=\""
      ++ realm
      ++ "\" error=\"invalid_token\" error_description=\""
      ++ shown e.error
      ++ "\""
  | none ↦ "realm=\"" ++ realm ++ "\""
]

-- `UnixValidator::validate`; `verify` is `pwhash::unix::verify(password, hash)`.
unfoldable pub unix_validate :
    (String → String → Bool) → String → String → Result AuthenticationError (Unit {0})
unix_validate verify hash password =
    if not (verify password hash) then err incorrect_credentials else ok tt
