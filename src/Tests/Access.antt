-- ===== src/Tests/Access.antt =====
-- A peer with a password, and one that guesses.
use tpi_bmcd.Base.{
  ℕ, ◌+◌, ◌≡◌, ◌&&◌, refl, String, str_eq, true, false, none, some, [], ◌∷◌, Result, ok, err, is_ok,
  leb, ltb, if◌then◌else◌, arith,
}
use mathlib.Core.Option
use tpi_bmcd.Base.Assoc.{lookup, text_key}
use tpi_bmcd.Auth.Errors.{AuthenticationError, incorrect_credentials, exceeded_allowed_attempts}
use tpi_bmcd.Auth.Ban.{Penalty, patrole_ban, ban_length}
use tpi_bmcd.Auth.Ban.Laws.{penalty_of, failures, lockout}
use tpi_bmcd.Auth.Context.{
  Context, Clock, Login, session, authorize_bearer, validate_credentials, authenticate_request,
}
use tpi_bmcd.Auth.Context.Laws.{validate_credentials_counts}
use tpi_bmcd.Auth.Context.Tokens.{tokens_after_bearer, login_opens_session}
use tpi_bmcd.Auth.Service.{Request, call, parse_authorization_header}
use tpi_bmcd.Auth.Service.Laws.{is_served, is_served-call, TurnsAway, banned_turned_away}

-- Passwords that are stored as they are, and credentials that are not encoded.
abbrev plain : String → String → Result AuthenticationError (Unit {0})
plain hash password = if str_eq hash password then ok tt else err incorrect_credentials

abbrev decode : String → Result String String
decode text = ok text

-- A clock that stands.
abbrev at : ℕ → Clock
at n k = n

abbrev guesser : Penalty
guesser = record { attempts = 4; deadline = 5_000 }

-- One live token, one that has been idle since 10, and a guesser banned until 5000.
abbrev store : Context
store = record {
  token_store = ("live", 900) ∷ ("idle", 10) ∷ [];
  passwds = ("root", "turing") ∷ [];
  expire_timeout = 500;
  ban_patrol = record { penalties = ("10.0.0.9", guesser) ∷ []; max_authentication_attempts = 3 };
}

abbrev login : Login
login = record { username = "root"; password = "turing" }

other_allowed : patrole_ban store.ban_patrol "10.0.0.1" 1000 ≡ ok tt
unfolding patrole_ban lookup
other_allowed = refl

fresh : penalty_of store.ban_patrol "10.0.0.1" ≡ none
unfolding lookup
fresh = refl

lockout_example : patrole_ban (failures (at 7) "10.0.0.1" 4 store.ban_patrol) "10.0.0.1" 100 ≡ (
    let end = 7 + ban_length 4 3 in
    if leb 3 4 && ltb 100 end then err (exceeded_allowed_attempts end) else ok tt)
lockout_example = lockout (at 7) "10.0.0.1" store.ban_patrol fresh 3 100 (omega arith)

validate_credentials_counts_example :
    let (r, c') = validate_credentials plain (at 1000) "10.0.0.1" "root" "wrong" store in
    (is_ok r ≡ false)
    × (Option.map (λ (p : Penalty). p.attempts) (penalty_of c'.ban_patrol "10.0.0.1") ≡ some 1)
unfolding lookup
validate_credentials_counts_example =
    validate_credentials_counts plain (at 1000) "10.0.0.1" "10.0.0.1" "root" "wrong" store
      other_allowed

tokens_after_bearer_example :
    lookup "idle" (authorize_bearer (at 1000) "10.0.0.1" "idle" store).1.token_store ≡ none
unfolding lookup patrole_ban
tokens_after_bearer_example = tokens_after_bearer (at 1000) "10.0.0.1" "idle" store "idle"

unknown : lookup "new" store.token_store ≡ none
unfolding lookup
unknown = refl

passes : (validate_credentials plain (at 1000) "10.0.0.1" "root" "turing" store).0 ≡ ok tt
unfolding validate_credentials lookup patrole_ban
passes = refl

login_opens_session_example :
    let (r, c') = authenticate_request plain (at 1000) "10.0.0.1" (ok login) "new" store in
    (r ≡ ok (session "new" "root"))
    × (is_ok (authorize_bearer (at 1400) "10.0.0.2" "new" c').0
        ≡ (is_ok (patrole_ban c'.ban_patrol "10.0.0.2" 1400) && true))
login_opens_session_example =
    login_opens_session plain (at 1000) (at 1400) "10.0.0.1" "10.0.0.2" "new" login store passes

-- A request from the network, without a header.
abbrev anonymous : Request
anonymous = record {
  on_loopback = false;
  peer = "10.0.0.1";
  path = "/api/bmc";
  authorization = none;
  body = err "no body";
}

is_served-call_example :
    is_served (call plain decode "/api/bmc/authenticate" (at 1000) anonymous "new" store).0 ≡ false
unfolding parse_authorization_header
is_served-call_example =
    is_served-call plain decode "/api/bmc/authenticate" (at 1000) anonymous "new" store

-- The guesser has found a live token.
abbrev with_token : Request
with_token = record anonymous { peer = "10.0.0.9"; authorization = some (ok "Bearer live") }

banned : penalty_of store.ban_patrol "10.0.0.9" ≡ some guesser
unfolding lookup
banned = refl

banned_turned_away_example :
    TurnsAway plain decode "/api/bmc/authenticate" store
      (call plain decode "/api/bmc/authenticate" (at 1000) with_token "new" store)
banned_turned_away_example =
    banned_turned_away plain decode "/api/bmc/authenticate" (at 1000) with_token "new" store guesser
      refl banned (omega arith)
