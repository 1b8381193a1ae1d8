-- ===== src/Auth/Service.antt =====
-- bmcd/src/authentication/authentication_service.rs: the guard in front of the API.
pub mod Laws
use tpi_bmcd.Base.{
  Bool, true, false, if◌then◌else◌, String, str_eq, Option, none, some, Result, ok, err,
}
use tpi_bmcd.Auth.Errors.{
  AuthenticationError, empty, http_parse_error, SchemedAuthError, into_basic_error,
}
use tpi_bmcd.Auth.Context.{
  Context, Clock, Login, Session, Reply, authorize_request, authenticate_request,
}

-- What the guard reads of a request. `authorization` is the header: absent, or its text unless it has
-- bytes that are not text; `body` is the body as a login.
pub record Request : Type 0 where
  pub on_loopback : Bool
  pub peer : String
  pub path : String
  pub authorization : Option (Result String String)
  pub body : Result String Login

-- `served` is a call of the service behind the guard.
pub data Answer : Type 0 where
  served : Answer
  unauthorized : SchemedAuthError → Answer
  forbidden : AuthenticationError → Answer
  authenticated : Session → Answer

unfoldable pub parse_authorization_header : Request → Result AuthenticationError String
parse_authorization_header r = elim r.authorization [
  | none ↦ err empty
  | some (ok text) ↦ ok text
  | some (err e) ↦ err (http_parse_error e)
]

module _ (validate : String → String → Result AuthenticationError (Unit {0}))
    (decode : String → Result String String) (auth_path : String) where
  abbrev pub login_answer : Reply Session → Answer × Context
  login_answer (ok s, c) = (authenticated s, c)
  login_answer (err e, c) = (forbidden e, c)

  abbrev pub guard_answer : Result SchemedAuthError (Unit {0}) × Context → Answer × Context
  guard_answer (ok _, c) = (served, c)
  guard_answer (err e, c) = (unauthorized e, c)

  abbrev pub guarded :
      Clock → Request → Result AuthenticationError String → Context → Answer × Context
  guarded now r (err e) c = (unauthorized (into_basic_error e), c)
  guarded now r (ok auth) c = guard_answer (authorize_request validate decode now r.peer auth c)

  unfoldable pub call : Clock → Request → String → Context → Answer × Context
  call now r token c =
      if r.on_loopback
      then (served, c)
      else if str_eq r.path auth_path
      then login_answer (authenticate_request validate now r.peer r.body token c)
      else guarded now r (parse_authorization_header r) c
