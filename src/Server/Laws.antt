-- ===== src/Server/Laws.antt =====
-- What a daemon that serves has set up before.
use tpi_bmcd.Base.{◌≡◌, Bool, String, List, [], ◌∷◌, if◌then◌else◌, ok}
use tpi_bmcd.App.Start.{Started}
use tpi_bmcd.App.Start.Consistent.{IsConsistent}
use tpi_bmcd.Auth.Ban
use tpi_bmcd.Auth.Watch
use tpi_bmcd.Auth.Watch.{Authenticator, ShadowFile}
use tpi_bmcd.Auth.Watch.Laws.{Holds}
use tpi_bmcd.Server.{World, Config, Daemon, Socket, https, http, http_port, load_tls_config}

-- An authenticator with the users of the file, without a session and without a ban.
abbrev pub IsFresh : ShadowFile → Bool → Authenticator → Type 0
IsFresh file watchable a =
    (lines : List String) × (file ≡ ok lines)
    × Holds (lines, watchable) a
    × (a.context.token_store ≡ [])
    × (a.context.ban_patrol.penalties ≡ [])

module _ (w : World) where
  -- What the configuration asks for.
  abbrev pub servers_of : Config → List Socket
  servers_of config =
      https config.host config.port
      ∷ (if config.redirect_http then http config.host http_port ∷ [] else [])

  -- What the start leaves, by the configuration that was read.
  abbrev pub IsSetUp : Daemon → Type 0
  IsSetUp d =
      (config : Config) × (w.config ≡ ok config)
      × (load_tls_config w config.tls ≡ ok tt)
      × IsConsistent w.board w.env w.format w.codecs config.write_timeout w.readonly w.opens w.disk
          d.started
      × IsFresh w.shadow w.watchable d.authenticator
      × (d.servers ≡ servers_of config)

  abbrev IsServing : Config → Started → Authenticator → Daemon → Type 0
  IsServing config started a d =
      (d.started ≡ started) × (d.authenticator ≡ a) × (d.servers ≡ servers_of config)

  abbrev Consistent : Config → Started → Type 0
  Consistent config s =
      IsConsistent w.board w.env w.format w.codecs config.write_timeout w.readonly w.opens w.disk s
