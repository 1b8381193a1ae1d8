-- ===== src/Auth/Context.antt =====
-- bmcd/src/authentication/authentication_context.rs: tokens and passwords.
pub mod Laws
pub mod Tokens
use tpi_bmcd.Base.{
  ℕ, ◌+◌, ◌-◌, ltb, leb, if◌then◌else◌, String, str_eq, Option, none, some, List, [], ◌∷◌, length,
  Result, ok, err,
}
use tpi_bmcd.Base.Results.{◌>>=◌, ok_or, err?, unwrap_or, map_err}
use tpi_bmcd.Base.Text.{split_once}
use tpi_bmcd.Base.Assoc.{lookup, insert, remove, text_key}
use tpi_bmcd.Auth.Errors.{
  AuthenticationError, parse_error, incorrect_credentials, token_expired, no_match,
  http_parse_error, scheme_not_supported, exceeded_allowed_attempts, SchemedAuthError,
  into_basic_error, into_bearer_error, into_unknown_error, empty,
}
use tpi_bmcd.Auth.Ban.{BanPatrol, patrole_ban, penalize, clear_penalties}

pub record Context : Type 0 where
  pub token_store : List (String × ℕ)
  pub passwds : List (String × String)
  pub expire_timeout : ℕ
  pub ban_patrol : BanPatrol

-- The readings of `Instant::now()` during one request, in their order.
abbrev pub Clock : Type 0
Clock = ℕ → ℕ

abbrev pub Reply {ℓ} : Type ℓ → Type ℓ
Reply A = Result AuthenticationError A × Context

-- `HashMap::from_iter`: of two entries for one key the later stays.
unfoldable pub from_iter : List (String × String) → List (String × String) → List (String × String)
from_iter m [] = m
from_iter m ((k, v) ∷ entries) = from_iter (insert k v m) entries

unfoldable pub reload_password_cache : List (String × String) → Context → Context
reload_password_cache entries c = record c { passwds = from_iter [] entries }

-- `Err(self.ban_patrol.penalize(peer).err().unwrap_or(e))`
abbrev pub penalty : Clock → String → AuthenticationError → Context → Reply (Unit {0})
penalty now peer e c =
    let (r, patrol) = penalize peer (now 1) (now 2) (now 3) c.ban_patrol in
    (err (unwrap_or (err? r) e), record c { ban_patrol = patrol })

abbrev pub accepted : String → Context → Reply (Unit {0})
accepted peer c = (ok tt, record c { ban_patrol = clear_penalties peer c.ban_patrol })

abbrev pub check_token : Clock → String → String → Option ℕ → Context → Reply (Unit {0})
check_token now peer token none c = penalty now peer (no_match token) c
check_token now peer token (some instant) c =
    if ltb (now 1 - instant) c.expire_timeout
    then accepted peer (record c { token_store = insert token (now 2) c.token_store })
    else (err (token_expired instant), record c { token_store = remove token c.token_store })

abbrev pub unless_banned :
    Result AuthenticationError (Unit {0})
    → (Context → Reply (Unit {0}))
    → Context
    → Reply (Unit {0})
unless_banned (ok _) f c = f c
unless_banned (err e) f c = (err e, c)

unfoldable pub authorize_bearer : Clock → String → String → Context → Reply (Unit {0})
authorize_bearer now peer token c =
    unless_banned (patrole_ban c.ban_patrol peer (now 0))
      (check_token now peer token (lookup token c.token_store)) c

-- The loop of `retain`: each entry is compared with a reading of its own, from the `k`th on.
unfoldable pub sweep : Clock → ℕ → ℕ → List (String × ℕ) → List (String × ℕ)
sweep now k timeout [] = []
sweep now k timeout ((t, last_access) ∷ m) =
    let rest = sweep now (k + 1) timeout m in
    if leb (now k - last_access) timeout then (t, last_access) ∷ rest else rest

unfoldable pub new_and_remove_expired_tokens : Clock → String → Context → Context
new_and_remove_expired_tokens now key c = record c {
  token_store =
      insert key (now (4 + length c.token_store)) (sweep now 4 c.expire_timeout c.token_store);
}

pub record Login : Type 0 where
  pub username : String
  pub password : String

pub record Session : Type 0 where
  pub id : String
  pub name : String
  pub description : String
  pub username : String

abbrev pub session : String → String → Session
session token username = record {
  id = token;
  name = "User Session";
  description = "User Session";
  username = username;
}

abbrev pub open_session : Clock → String → Login → Reply (Unit {0}) → Reply Session
open_session now token login (err e, c) = (err e, c)
open_session now token login (ok _, c) =
    (ok (session token login.username), new_and_remove_expired_tokens now token c)

-- `validate` is the `PasswordValidator`; `decode` is the base64 decoding of crate `base64` and the
-- check of its UTF-8, each with its error as text.
module _ (validate : String → String → Result AuthenticationError (Unit {0})) where
  abbrev pub judged :
      Clock → String → Result AuthenticationError (Unit {0}) → Context → Reply (Unit {0})
  judged now peer (ok _) c = accepted peer c
  judged now peer (err incorrect_credentials) c = penalty now peer incorrect_credentials c
  judged now peer (err e) c = (err e, c)

  abbrev pub password_check : String → String → Context → Result AuthenticationError (Unit {0})
  password_check username password c =
      ok_or (lookup username c.passwds) incorrect_credentials >>= λ pass. validate pass password

  unfoldable pub validate_credentials :
      Clock → String → String → String → Context → Reply (Unit {0})
  validate_credentials now peer username password c =
      unless_banned (patrole_ban c.ban_patrol peer (now 0))
        (judged now peer (password_check username password c)) c

  module _ (decode : String → Result String String) where
    abbrev pub split_credentials :
        Clock → String → Option (String × String) → Context → Reply (Unit {0})
    split_credentials now peer none c =
        (err (parse_error "basic authentication formatted wrong"), c)
    split_credentials now peer (some (user, pass)) c = validate_credentials now peer user pass c

    abbrev pub decoded_credentials :
        Clock → String → Result String String → Context → Reply (Unit {0})
    decoded_credentials now peer (err e) c = (err (parse_error e), c)
    decoded_credentials now peer (ok utf8) c = split_credentials now peer (split_once b':' utf8) c

    unfoldable pub authorize_basic : Clock → String → String → Context → Reply (Unit {0})
    authorize_basic now peer credentials c = decoded_credentials now peer (decode credentials) c

    abbrev pub SchemedReply : Type 0
    SchemedReply = Result SchemedAuthError (Unit {0}) × Context

    abbrev pub dispatch :
        Clock → String → String → Option (String × String) → Context → SchemedReply
    dispatch now peer line none c = (err (into_basic_error (http_parse_error line)), c)
    dispatch now peer line (some (scheme, rest)) c =
        if str_eq scheme "Bearer"
        then (let (r, c') = authorize_bearer now peer rest c in (map_err into_bearer_error r, c'))
        else if str_eq scheme "Basic"
        then (let (r, c') = authorize_basic now peer rest c in (map_err into_basic_error r, c'))
        else (err (into_unknown_error (scheme_not_supported scheme)), c)

    unfoldable pub authorize_request : Clock → String → String → Context → SchemedReply
    authorize_request now peer line c = dispatch now peer line (split_once b' ' line) c

  -- `parsed` is the body as crate `serde_json` reads it, `token` the 64 random characters.
  unfoldable pub authenticate_request :
      Clock → String → Result String Login → String → Context → Reply Session
  authenticate_request now peer (err e) token c = (err (parse_error e), c)
  authenticate_request now peer (ok login) token c =
      open_session now token login (validate_credentials now peer login.username login.password c)
