-- ===== src/Auth/Watch.antt =====
-- bmcd/src/authentication/linux_authenticator.rs: the start of the authenticator, and the task that
-- watches the shadow file while requests are served. Crate `inotify` gives the items of the stream.
pub mod Laws
use tpi_bmcd.Base.{
  ℕ, Bool, true, false, if◌then◌else◌, String, Option, none, some, List, [], ◌∷◌, Result, ok, err,
}
use tpi_bmcd.Auth.Errors.{AuthenticationError}
use tpi_bmcd.Auth.Ban
use tpi_bmcd.Auth.Ban.{BanPatrol}
use tpi_bmcd.Auth.Context.{
  Context, Clock, Login, from_iter, reload_password_cache, authorize_bearer, validate_credentials,
  authenticate_request,
}
use tpi_bmcd.Auth.Shadow.{parse_shadow_file}

-- The lines of the shadow file, or the error of opening or reading it.
abbrev pub ShadowFile : Type 0
ShadowFile = Result ℕ (List String)

-- `AuthenticationContext::with_unix_validator`; `none` is the failed assertion of `BanPatrol::new`.
unfoldable pub with_unix_validator : List (String × String) → ℕ → ℕ → Option Context
with_unix_validator entries expire_timeout attempts = elim (Ban.new attempts) [
  | none ↦ none
  | some patrol ↦ some (record {
    token_store = [];
    passwds = from_iter [] entries;
    expire_timeout = expire_timeout;
    ban_patrol = patrol;
  })
]

-- The two masks that are watched, and the notice that a watch is gone.
pub data EventMask : Type 0 where
  delete_self close_write ignored : EventMask

-- What the event stream yields: an event, with whether the watch can be added again and what the file
-- holds at that time, or an error.
pub data WatchItem : Type 0 where
  watch_event : EventMask → Bool → ShadowFile → WatchItem
  watch_error : WatchItem

-- The context that the requests share, and whether the task that watches is in its loop.
pub record Authenticator : Type 0 where
  pub context : Context
  pub watching : Bool

abbrev reloaded : ShadowFile → Context → Context
reloaded (err e) c = c
reloaded (ok lines) c = reload_password_cache (parse_shadow_file lines) c

-- The `expect` on adding the watch again ends the task.
abbrev handle_event : EventMask → Bool → ShadowFile → Authenticator → Authenticator
handle_event delete_self rebound file a = record a { watching = rebound }
handle_event close_write rebound file a = record a { context = reloaded file a.context }
handle_event ignored rebound file a = record a { context = reloaded file a.context }

-- One round of the loop.
unfoldable pub watch : WatchItem → Authenticator → Authenticator
watch watch_error a = record a { watching = false }
watch (watch_event mask rebound file) a = if a.watching then handle_event mask rebound file a else a

-- `LinuxAuthenticator::new`: whether the watch can be set up decides only on the task.
unfoldable pub new : ShadowFile → Bool → ℕ → ℕ → Result ℕ (Option Authenticator)
new (err e) watchable duration attempts = err e
new (ok lines) watchable duration attempts =
    elim (with_unix_validator (parse_shadow_file lines) duration attempts) [
      | none ↦ ok none
      | some c ↦ ok (some (record { context = c; watching = watchable }))
    ]

-- What takes the lock of the context: the watcher, or one of the requests.
pub data Turn : Type 0 where
  watched : WatchItem → Turn
  bearer : Clock → String → String → Turn
  basic : Clock → String → String → String → Turn
  login : Clock → String → Login → String → Turn

module _ (validate : String → String → Result AuthenticationError (Unit {0})) where
  unfoldable pub take_turn : Turn → Authenticator → Authenticator
  take_turn (watched item) a = watch item a
  take_turn (bearer now peer token) a = record a {
    context = (authorize_bearer now peer token a.context).1;
  }
  take_turn (basic now peer user pass) a = record a {
    context = (validate_credentials validate now peer user pass a.context).1;
  }
  take_turn (login now peer l token) a = record a {
    context = (authenticate_request validate now peer (ok l) token a.context).1;
  }

  unfoldable pub take_turns : List Turn → Authenticator → Authenticator
  take_turns [] a = a
  take_turns (t ∷ ts) a = take_turns ts (take_turn t a)
