-- ===== src/Server.antt =====
-- bmcd/src/main.rs and config.rs: the start of the daemon, its two HTTP servers, and what they do with a
-- request before it reaches a handler. Crates `config` and `openssl`, the files and the sockets are
-- answered by a record.
pub mod Laws
use Prim.Native.String.{◌++◌}
use tpi_bmcd.Base.{
  ℕ, Bool, true, false, if◌then◌else◌, ◌||◌, String, str_eq, Option, none, some, List, [], ◌∷◌,
  Result, ok, err,
}
use tpi_bmcd.Base.Results.{◌>>=◌}
use tpi_bmcd.Base.Text.{starts_with}
use tpi_bmcd.Base.Print.{to_string}
use tpi_bmcd.Hal.Device.{Env, Trace}
use tpi_bmcd.Hal.Setup.{Board}
use tpi_bmcd.Persistency.{Format}
use tpi_bmcd.Persistency.Writer.{Disk}
use tpi_bmcd.App.Store.{Codecs}
use tpi_bmcd.App.Start
use tpi_bmcd.App.Start.{StartError, Started}
use tpi_bmcd.Auth.Errors.{AuthenticationError}
use tpi_bmcd.Auth.Context.{Context, Clock}
use tpi_bmcd.Auth.Service.{Request, Answer, served, call}
use tpi_bmcd.Auth.Watch
use tpi_bmcd.Auth.Watch.{Authenticator, ShadowFile}
use tpi_bmcd.Stream
use tpi_bmcd.Stream.{Service}

abbrev pub http_port : ℕ
http_port = 80

pub record Tls : Type 0 where
  pub private_key : String
  pub certificate : String

-- `log` is left out. The store and the authentication have no other settings than these.
pub record Config : Type 0 where
  pub tls : Tls
  pub write_timeout : Option ℕ
  pub authentication_attempts : ℕ
  pub token_expires : ℕ
  pub host : String
  pub port : ℕ
  pub www : String
  pub redirect_http : Bool

-- A server that is bound to an address.
pub data Socket : Type 0 where
  https http : String → ℕ → Socket

pub data MainError : Type 0 where
  config_file : ℕ → MainError
  pem_file pem_text tls_setup : ℕ → MainError
  application : StartError → MainError
  shadow_file event_listener bind : ℕ → MainError
  panicked : MainError

-- What the daemon meets when it is started: the settings, the texts of the files, what crate `openssl`
-- makes of them, the board and its files.
pub record World : Type 0 where
  pub config : Result ℕ Config
  pub pem : String → Result ℕ String
  pub private_key_from_pem : String → Result ℕ String
  pub certificate_from_pem : String → Result ℕ String
  pub accepts : String → String → Result ℕ (Unit {0})
  pub board : Board
  pub env : Env
  pub format : Format
  pub codecs : Codecs
  pub model : Result ℕ String
  pub readonly : Bool
  pub opens : Bool
  pub disk : Disk
  pub shadow : ShadowFile
  pub watchable : Bool
  pub listens : Result ℕ (Unit {0})
  pub binds : Socket → Result ℕ (Unit {0})

pub record Daemon : Type 0 where
  pub started : Started
  pub authenticator : Authenticator
  pub streaming : Service
  pub servers : List Socket

abbrev pub wrap {ℓ} : {A : Type ℓ} → (ℕ → MainError) → Result ℕ A → Result MainError A
wrap f (ok a) = ok a
wrap f (err e) = err (f e)

abbrev pub or_panic {ℓ} : {A : Type ℓ} → Option A → Result MainError A
or_panic none = err panicked
or_panic (some a) = ok a

abbrev pub in_application : Result StartError Started → Result MainError Started
in_application (ok s) = ok s
in_application (err e) = err (application e)

module _ (w : World) where
  -- Both files are read before either is parsed.
  unfoldable pub load_keys_from_pem : Tls → Result MainError (String × String)
  load_keys_from_pem tls = wrap pem_file (w.pem tls.private_key) >>= λ pkey.
      wrap pem_file (w.pem tls.certificate) >>= λ cert.
      wrap pem_text (w.private_key_from_pem pkey) >>= λ key.
      wrap pem_text (w.certificate_from_pem cert) >>= λ x509. ok (key, x509)

  unfoldable pub load_tls_config : Tls → Result MainError (Unit {0})
  unfolding load_keys_from_pem
  load_tls_config tls = load_keys_from_pem tls >>= λ (keys : String × String).
      wrap tls_setup (w.accepts keys.0 keys.1)

  abbrev pub redirects : Config → Result MainError (List Socket)
  redirects config =
      if config.redirect_http
      then (wrap bind (w.binds (http config.host http_port)) >>= λ _.
          ok (http config.host http_port ∷ []))
      else ok []

  -- The second half of `main`: the event listener and the servers.
  abbrev pub serve : Config → Started → Authenticator → Result MainError Daemon
  serve config started authenticator = wrap event_listener w.listens >>= λ _.
      wrap bind (w.binds (https config.host config.port)) >>= λ _.
      redirects config >>= λ redirecting. ok (record {
        started = started;
        authenticator = authenticator;
        streaming = Stream.new;
        servers = https config.host config.port ∷ redirecting;
      })

  abbrev pub new_authenticator : Config → Result MainError Authenticator
  new_authenticator config =
      wrap shadow_file
        (Watch.new w.shadow w.watchable config.token_expires config.authentication_attempts)
      >>= or_panic

  -- The consoles of `SerialConnections::new`, which is called here, cannot fail the start.
  abbrev pub authenticate : Config → Started → Result MainError Daemon
  authenticate config started = new_authenticator config >>= serve config started

  abbrev pub new_application : Config → Result MainError Started
  new_application config = in_application (
      Start.new w.board w.env w.format w.codecs w.model config.write_timeout w.readonly w.opens
        w.disk [])

  abbrev pub configured : Config → Result MainError Daemon
  configured config =
      load_tls_config config.tls >>= λ _. new_application config >>= authenticate config

  unfoldable pub main : Result MainError Daemon
  unfolding load_tls_config
  main = wrap config_file w.config >>= configured

-- `redirect`; `host` is what crate `actix_web` gives for the request.
unfoldable pub redirect : String → String → ℕ → String
unfolding to_string
redirect host path port = "https://" ++ (host ++ (":" ++ (to_string port ++ path)))
