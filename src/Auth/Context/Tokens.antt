-- ===== src/Auth/Context/Tokens.antt =====
-- The life of a token: where it comes from, what keeps it alive and what ends it.
use tpi_bmcd.Base.{
  ℕ, ◌+◌, ◌-◌, ◌≡◌, refl, ltb, ◌&&◌, if◌then◌else◌, String, str_eq, str_eq_iff, Bool, false, Option,
  none, some, length, Result, ok, err, is_ok, arith,
}
use tpi_bmcd.Base.Text.{split_once}
use tpi_bmcd.Base.Assoc.{lookup, text_key, lookup-insert, lookup-remove}
use tpi_bmcd.Auth.Errors.{AuthenticationError}
use tpi_bmcd.Auth.Ban.{patrole_ban}
use tpi_bmcd.Auth.Context.{
  Context, Clock, Reply, Login, authorize_bearer, validate_credentials, authorize_basic,
  authorize_request, sweep, new_and_remove_expired_tokens, authenticate_request, split_credentials,
  decoded_credentials, dispatch, session, open_session,
}

-- A token that the store knows, last used less than the timeout before `at`.
abbrev pub is_live : ℕ → Context → Option ℕ → Bool
is_live at c none = false
is_live at c (some instant) = ltb (at - instant) c.expire_timeout

module _ (now : Clock) (peer token : String) (c : Context) where
  -- A bearer request is granted exactly if the peer is not banned and the token is live.
  is_ok-authorize_bearer : is_ok (authorize_bearer now peer token c).0 ≡ (
      is_ok (patrole_ban c.ban_patrol peer (now 0))
      && is_live (now 1) c (lookup token c.token_store))
  unfolding authorize_bearer
  is_ok-authorize_bearer = ground arith

  -- The request of a peer that is not banned refreshes a live token and drops one that has expired.
  -- No other token is touched, and a ban leaves all of them as they were.
  pub tokens_after_bearer :
      (t : String)
      → lookup t (authorize_bearer now peer token c).1.token_store ≡ (
          if str_eq token t && is_ok (patrole_ban c.ban_patrol peer (now 0))
          then (if is_live (now 1) c (lookup token c.token_store) then some (now 2) else none)
          else lookup t c.token_store)
  unfolding authorize_bearer
  tokens_after_bearer t = ground (
    arith,
    str_eq_iff token t,
    lookup-insert token t (now 2) c.token_store,
    lookup-remove token t c.token_store,
  )

module _ (validate : String → String → Result AuthenticationError (Unit {0})) where
  credentials_keep_tokens :
      (now : Clock) (peer user pass : String) (c : Context)
      → (validate_credentials validate now peer user pass c).1.token_store ≡ c.token_store
  unfolding validate_credentials
  credentials_keep_tokens now peer user pass c = ground arith

  credentials_keep_timeout :
      (now : Clock) (peer user pass : String) (c : Context)
      → (validate_credentials validate now peer user pass c).1.expire_timeout ≡ c.expire_timeout
  unfolding validate_credentials
  credentials_keep_timeout now peer user pass c = ground arith

  module _ (decode : String → Result String String) where
    basic_keeps_tokens :
        (now : Clock) (peer credentials : String) (c : Context)
        → (authorize_basic validate decode now peer credentials c).1.token_store ≡ c.token_store
    unfolding authorize_basic
    basic_keeps_tokens now peer credentials c = decoded (decode credentials)
      where
        split :
            (o : Option (String × String))
            → (split_credentials validate decode now peer o c).1.token_store ≡ c.token_store
        split none = refl
        split (some (user, pass)) = credentials_keep_tokens now peer user pass c

        decoded :
            (r : Result String String)
            → (decoded_credentials validate decode now peer r c).1.token_store ≡ c.token_store
        decoded (err e) = refl
        decoded (ok utf8) = split (split_once b':' utf8)

    -- No request for the API, granted or not, makes a token known that was not.
    authorize_request-no_new_token :
        (now : Clock) (peer line t : String) (c : Context)
        → lookup t c.token_store ≡ none
        → lookup t (authorize_request validate decode now peer line c).1.token_store ≡ none
    unfolding authorize_request
    authorize_request-no_new_token now peer line t c h = parts (split_once b' ' line)
      where
        parts :
            (o : Option (String × String))
            → lookup t (dispatch validate decode now peer line o c).1.token_store ≡ none
        parts none = h
        parts (some (scheme, rest)) = ground (
          arith,
          h,
          tokens_after_bearer now peer rest c t,
          str_eq_iff rest t,
          basic_keeps_tokens now peer rest c,
        )

  opened :
      (now later : Clock) (peer other token : String) (login : Login) (c : Context)
      → (validate_credentials validate now peer login.username login.password c).0 ≡ ok tt
      → authenticate_request validate now peer (ok login) token c ≡ (
        ok (session token login.username),
        new_and_remove_expired_tokens now token
            (validate_credentials validate now peer login.username login.password c).1,
      )
  unfolding authenticate_request
  opened now later peer other token login c h =
      go (validate_credentials validate now peer login.username login.password c) h
    where
      go :
          (r : Reply (Unit {0}))
          → r.0 ≡ ok tt
          → open_session now token login r
            ≡ (ok (session token login.username), new_and_remove_expired_tokens now token r.1)
      go (ok _, d) e = refl
      go (err x, d) e = cc

  -- A login with credentials that pass opens a session, whose id is the token. The token is then good
  -- for every peer that is not banned, until the timeout after the login has passed.
  pub login_opens_session :
      (now later : Clock) (peer other token : String) (login : Login) (c : Context)
      → (validate_credentials validate now peer login.username login.password c).0 ≡ ok tt
      → let (r, c') = authenticate_request validate now peer (ok login) token c in
        (r ≡ ok (session token login.username))
        × (is_ok (authorize_bearer later other token c').0 ≡ (
            is_ok (patrole_ban c'.ban_patrol other (later 0))
            && ltb (later 1 - now (4 + length c.token_store)) c.expire_timeout))
  unfolding new_and_remove_expired_tokens
  login_opens_session now later peer other token login c h =
      let v = (validate_credentials validate now peer login.username login.password c).1 in
      let swept = sweep now 4 v.expire_timeout v.token_store in
      rw (opened now later peer other token login c h) (
        refl,
        ground (
          arith,
          is_ok-authorize_bearer later other token (new_and_remove_expired_tokens now token v),
          lookup-insert token token (now (4 + length v.token_store)) swept,
          str_eq_iff token token,
          credentials_keep_tokens now peer login.username login.password c,
          credentials_keep_timeout now peer login.username login.password c,
        ),
      )
