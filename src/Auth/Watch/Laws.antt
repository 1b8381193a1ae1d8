-- ===== src/Auth/Watch/Laws.antt =====
-- Which passwords count while the shadow file changes and requests are served.
use tpi_bmcd.Base.{
  ℕ, zero, suc, ◌<◌, ◌≡◌, ◌∙◌, refl, Bool, false, if◌then◌else◌, String, some, List, [], ◌∷◌,
  Result, ok, err, arith,
}
use tpi_bmcd.Auth.Errors.{AuthenticationError}
use tpi_bmcd.Auth.Ban
use tpi_bmcd.Auth.Context.{
  Context, Login, from_iter, reload_password_cache, authorize_bearer, validate_credentials,
  authenticate_request, new_and_remove_expired_tokens,
}
use tpi_bmcd.Auth.Shadow.{parse_shadow_file}
use tpi_bmcd.Auth.Watch.{
  delete_self, close_write, ignored, WatchItem, watch_event, watch_error, Authenticator, new,
  with_unix_validator, watch, Turn, watched, bearer, basic, login, take_turn, take_turns,
  ShadowFile,
}

-- A cache of a file: what it holds, and whether it still follows the file.
abbrev pub Cache : Type 0
Cache = List String × Bool

abbrev reread : ShadowFile → Cache → Cache
reread (err e) (lines, follows) = (lines, follows)
reread (ok fresh) (lines, follows) = (fresh, follows)

-- What one turn means to the cache: requests leave it alone, a written file is read again, a file that
-- is gone must be there again to be followed.
abbrev follow : Turn → Cache → Cache
follow (watched watch_error) (lines, follows) = (lines, false)
follow (watched (watch_event delete_self rebound file)) (lines, follows) =
    (lines, if follows then rebound else false)
follow (watched (watch_event close_write rebound file)) (lines, follows) =
    if follows then reread file (lines, follows) else (lines, follows)
follow (watched (watch_event ignored rebound file)) (lines, follows) =
    if follows then reread file (lines, follows) else (lines, follows)
follow _ c = c

abbrev pub follow_all : List Turn → Cache → Cache
follow_all [] c = c
follow_all (t ∷ ts) c = follow_all ts (follow t c)

-- The authenticator holds the users of the cached lines.
abbrev pub Holds : Cache → Authenticator → Type 0
Holds (lines, follows) a =
    (a.context.passwds ≡ from_iter [] (parse_shadow_file lines)) × (a.watching ≡ follows)

passwds-authorize_bearer :
    (now : ℕ → ℕ) (peer token : String) (c : Context)
    → (authorize_bearer now peer token c).1.passwds ≡ c.passwds
unfolding authorize_bearer
passwds-authorize_bearer now peer token c = ground arith

module _ (validate : String → String → Result AuthenticationError (Unit {0})) where
  passwds-validate_credentials :
      (now : ℕ → ℕ) (peer user pass : String) (c : Context)
      → (validate_credentials validate now peer user pass c).1.passwds ≡ c.passwds
  unfolding validate_credentials
  passwds-validate_credentials now peer user pass c = ground arith

  passwds-authenticate_request :
      (now : ℕ → ℕ) (peer : String) (l : Login) (token : String) (c : Context)
      → (authenticate_request validate now peer (ok l) token c).1.passwds ≡ c.passwds
  unfolding authenticate_request new_and_remove_expired_tokens
  passwds-authenticate_request now peer l token c =
      ground (arith, passwds-validate_credentials now peer l.username l.password c)

  take_turn-Holds :
      (t : Turn) (c : Cache) (a : Authenticator)
      → Holds c a
      → Holds (follow t c) (take_turn validate t a)
  unfolding take_turn watch reload_password_cache
  take_turn-Holds (watched watch_error) (lines, follows) a h = ground arith
  take_turn-Holds (watched (watch_event delete_self rebound file)) (lines, follows) a h =
      ground arith
  take_turn-Holds (watched (watch_event close_write rebound file)) (lines, follows) a h =
      ground arith
  take_turn-Holds (watched (watch_event ignored rebound file)) (lines, follows) a h = ground arith
  take_turn-Holds (bearer now peer token) (lines, follows) a h =
      (passwds-authorize_bearer now peer token a.context ∙ h.0, h.1)
  take_turn-Holds (basic now peer user pass) (lines, follows) a h =
      (passwds-validate_credentials now peer user pass a.context ∙ h.0, h.1)
  take_turn-Holds (login now peer l token) (lines, follows) a h =
      (passwds-authenticate_request now peer l token a.context ∙ h.0, h.1)

  take_turns-Holds :
      (ts : List Turn) (c : Cache) (a : Authenticator)
      → Holds c a
      → Holds (follow_all ts c) (take_turns validate ts a)
  unfolding take_turns
  take_turns-Holds [] c a h = h
  take_turns-Holds (t ∷ ts) c a h =
      take_turns-Holds ts (follow t c) (take_turn validate t a) (take_turn-Holds t c a h)

  -- With a readable shadow file and at least one attempt the authenticator starts, and from then on, in
  -- any interleaving of requests and events of the watch, the users and passwords that count are those
  -- of a cache of the shadow file. The cache takes every readable content that comes with an event
  -- other than the deletion of the file, keeps the last one where the file cannot be read, follows a
  -- file that was deleted only if the watch can be added again, ends with an error of the stream, and
  -- never follows if the watch cannot be set up. No request changes it.
  pub new-take_turns :
      (lines : List String) (watchable : Bool) (duration attempts : ℕ) (ts : List Turn)
      → 0 < attempts
      → (a : Authenticator) × (new (ok lines) watchable duration attempts ≡ ok (some a))
        × Holds (follow_all ts (lines, watchable)) (take_turns validate ts a)
  unfolding new with_unix_validator Ban.new
  new-take_turns lines watchable duration zero ts h = absurd (omega arith)
  new-take_turns lines watchable duration (suc attempts) ts h =
      let a : Authenticator = record {
        context = record {
          token_store = [];
          passwds = from_iter [] (parse_shadow_file lines);
          expire_timeout = duration;
          ban_patrol = record { penalties = []; max_authentication_attempts = suc attempts };
        };
        watching = watchable;
      } in
      (a, ground arith, take_turns-Holds ts (lines, watchable) a (refl, refl))

  -- A change of the shadow file ends no session: after any item of the watch a bearer token is accepted
  -- or refused as before, also if its user is gone or has another password, and so is any peer's ban.
  pub watch_keeps_sessions :
      (item : WatchItem) (now : ℕ → ℕ) (peer token : String) (a : Authenticator)
      → ((authorize_bearer now peer token (watch item a).context).0
          ≡ (authorize_bearer now peer token a.context).0)
        × ((watch item a).context.ban_patrol ≡ a.context.ban_patrol)
  unfolding watch reload_password_cache authorize_bearer
  watch_keeps_sessions item now peer token a = ground arith
