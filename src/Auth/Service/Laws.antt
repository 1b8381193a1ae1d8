-- ===== src/Auth/Service/Laws.antt =====
-- Which requests reach the service behind the guard, and that those of a banned peer do not.
use tpi_bmcd.Base.{
  ℕ, ◌<◌, Option, none, some, Bool-cases, inl, inr, ◌≡◌, refl, if◌then◌else◌, String, str_eq, Bool,
  true, false, not, ◌&&◌, ◌||◌, Result, ok, err, is_ok, arith,
}
use tpi_bmcd.Base.Text.{split_once}
use tpi_bmcd.Auth.Errors.{AuthenticationError, SchemedAuthError, exceeded_allowed_attempts}
use tpi_bmcd.Auth.Ban.{BanPatrol, Penalty, patrole_ban}
use tpi_bmcd.Auth.Ban.Laws.{penalty_of}
use tpi_bmcd.Auth.Context.{
  Context, Clock, authorize_request, authenticate_request, Session, Reply, Login,
  validate_credentials, authorize_basic, authorize_bearer, split_credentials, decoded_credentials,
  dispatch,
}
use tpi_bmcd.Auth.Service.{
  Request, Answer, served, unauthorized, forbidden, call, login_answer, guard_answer, guarded,
  parse_authorization_header,
}

abbrev pub is_refused : Answer → Bool
is_refused (unauthorized e) = true
is_refused (forbidden e) = true
is_refused _ = false

abbrev pub is_served : Answer → Bool
is_served served = true
is_served _ = false

module _ (validate : String → String → Result AuthenticationError (Unit {0}))
    (decode : String → Result String String) (auth_path : String) where
  -- Whether the header, if there is one, opens the API.
  abbrev pub opens : Clock → Request → Context → Result AuthenticationError String → Bool
  opens now r c (err e) = false
  opens now r c (ok auth) = is_ok (authorize_request validate decode now r.peer auth c).0

  -- The service is reached exactly from the loopback interface, or on a path other than the login's
  -- with a header that authorises.
  pub is_served-call :
      (now : Clock) (r : Request) (token : String) (c : Context)
      → is_served (call validate decode auth_path now r token c).0 ≡ (
          r.on_loopback
          || (not (str_eq r.path auth_path) && opens now r c (parse_authorization_header r)))
  unfolding call
  is_served-call now r token c =
      parts (parse_authorization_header r) (authenticate_request validate now r.peer r.body token c)
    where
      login_unserved :
          (p : Reply Session) → is_served (login_answer validate decode auth_path p).0 ≡ false
      login_unserved (ok s, d) = refl
      login_unserved (err e, d) = refl

      parts :
          (h : Result AuthenticationError String) (p : Reply Session)
          → is_served
              (if r.on_loopback
                then (served, c)
                else if str_eq r.path auth_path
                then login_answer validate decode auth_path p
                else guarded validate decode auth_path now r h c).0
            ≡ (r.on_loopback || (not (str_eq r.path auth_path) && opens now r c h))
      parts h p = ground (arith, login_unserved p)

  abbrev Refuses {ℓ} : {A : Type ℓ} {E : Type 0} → Context → Result E A × Context → Type 0
  Refuses c (r, c') = (is_ok r ≡ false) × (c' ≡ c)

  -- The guard's answer leaves the state as it was, and is neither the service's nor a session.
  abbrev pub TurnsAway : Context → Answer × Context → Type 0
  TurnsAway c p = (is_refused p.0 ≡ true) × (p.1 ≡ c)

  module _ (now : Clock) (peer : String) (c : Context) (e : AuthenticationError)
      (banned : patrole_ban c.ban_patrol peer (now 0) ≡ err e) where
    refused_credentials :
        (user pass : String) → Refuses c (validate_credentials validate now peer user pass c)
    unfolding validate_credentials
    refused_credentials user pass = rw banned (refl, refl)

    refused_basic :
        (credentials : String) → Refuses c (authorize_basic validate decode now peer credentials c)
    unfolding authorize_basic
    refused_basic credentials = by_text (decode credentials)
      where
        split :
            (o : Option (String × String))
            → Refuses c (split_credentials validate decode now peer o c)
        split none = (refl, refl)
        split (some (user, pass)) = refused_credentials user pass

        by_text :
            (d : Result String String)
            → Refuses c (decoded_credentials validate decode now peer d c)
        by_text (err x) = (refl, refl)
        by_text (ok text) = split (split_once b':' text)

    refused_bearer : (bearer : String) → Refuses c (authorize_bearer now peer bearer c)
    unfolding authorize_bearer
    refused_bearer bearer = rw banned (refl, refl)

    refused_header : (line : String) → Refuses c (authorize_request validate decode now peer line c)
    unfolding authorize_request
    refused_header line = by_scheme (split_once b' ' line)
      where
        by_scheme :
            (o : Option (String × String)) → Refuses c (dispatch validate decode now peer line o c)
        by_scheme none = (refl, refl)
        by_scheme (some (scheme, rest)) = ground (arith, refused_bearer rest, refused_basic rest)

    refused_login :
        (body : Result String Login) (token : String)
        → Refuses c (authenticate_request validate now peer body token c)
    unfolding authenticate_request
    refused_login (err x) token = (refl, refl)
    refused_login (ok l) token = ground (arith, refused_credentials l.username l.password)

  still_banned :
      (now : ℕ) (peer : String) (b : BanPatrol) (p : Penalty)
      → penalty_of b peer ≡ some p
      → now < p.deadline
      → patrole_ban b peer now ≡ err (exceeded_allowed_attempts p.deadline)
  unfolding patrole_ban
  still_banned now peer b p penalized lasts = ground (arith, penalized)

  turned_login :
      (c : Context) (p : Reply Session)
      → Refuses c p
      → TurnsAway c (login_answer validate decode auth_path p)
  turned_login c (ok s, d) h = absurd cc
  turned_login c (err x, d) h = (refl, h.1)

  turned_guard :
      (c : Context) (p : Result SchemedAuthError (Unit {0}) × Context)
      → Refuses c p
      → TurnsAway c (guard_answer validate decode auth_path p)
  turned_guard c (ok s, d) h = absurd cc
  turned_guard c (err x, d) h = (refl, h.1)

  turned_header :
      (now : Clock) (r : Request) (c : Context) (h : Result AuthenticationError String)
      → ((line : String) → Refuses c (authorize_request validate decode now r.peer line c))
      → TurnsAway c (guarded validate decode auth_path now r h c)
  turned_header now r c (err x) refused = (refl, refl)
  turned_header now r c (ok line) refused = turned_guard c _ (refused line)

  -- While the ban of a peer lasts, no request of that peer that comes from the network gets anywhere:
  -- whatever its path, its header and its body are, well-formed or not, with a valid token or the right
  -- password, it neither reaches the service nor opens a session, and nothing changes; in particular its
  -- ban does not grow.
  pub banned_turned_away :
      (now : Clock) (r : Request) (token : String) (c : Context) (p : Penalty)
      → r.on_loopback ≡ false
      → penalty_of c.ban_patrol r.peer ≡ some p
      → now 0 < p.deadline
      → TurnsAway c (call validate decode auth_path now r token c)
  unfolding call parse_authorization_header
  banned_turned_away now r token c p network penalized lasts =
      let banned = still_banned (now 0) r.peer c.ban_patrol p penalized lasts in
      rw network (elim (Bool-cases (str_eq r.path auth_path)) [
        | inl e ↦ rw e (turned_login c _ (refused_login now r.peer c _ banned r.body token))
        | inr e ↦ rw e (
            turned_header now r c (parse_authorization_header r)
              (refused_header now r.peer c _ banned))
      ])
