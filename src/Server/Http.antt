-- ===== src/Server/Http.antt =====
-- http.go, newHTTPServer: the server of a configuration with its listeners. Durations are numbers of
-- nanoseconds.
use ozone.Prelude.{ℕ, ◌/◌, String, Bool, not, Option, none, some, List, [], ◌∷◌}
use ozone.Prelude.Text.{append, decimal}
use ozone.Prelude.Dict.{Dict}
use ozone.Prelude.Outcome.{Outcome, returns, ◌>>=◌}
use ozone.Prelude.Result.{Result, fails, gives, and_then}
use ozone.RequestMetrics.{Meter}
use ozone.Handler.Registry.{Handler}
use ozone.TlsConf.{TlsLib, TlsConfig, TlsServerConfig, get_tls_server_config}
use ozone.TlsPlugins.{TlsPluginUse, Opened, TlsPluginRegistry, get_tls_server_config_with_plugin}

-- config.TLSServerConfig
pub record TlsListenerConfig : Type 0 where
  pub server : TlsServerConfig
  pub plugin : TlsPluginUse

pub record ListenerConfig : Type 0 where
  pub address : String
  pub port : ℕ
  pub io_activity_timeout : ℕ
  pub tls : Option TlsListenerConfig
  pub socket_fd_name : String
  pub socket_inherit_only : Bool

-- HTTPServerConfig; the specification of the handler is its raw JSON.
pub record HttpServerConfig : Type 0 where
  pub listeners : Dict ListenerConfig
  pub handler : String
  pub access_log : String
  pub metrics : String
  pub disable_keep_alives : Bool
  pub read_header_timeout : ℕ
  pub idle_timeout : ℕ
  pub read_timeout : ℕ
  pub write_timeout : ℕ
  pub new_active_timeout : ℕ

-- The handler that wrapAuditHandler returns: the wrapped one, which may be nil, its meters, and the
-- number by which the access logs know it.
pub record AuditHandler : Type 0 where
  pub inner : Option Handler
  pub meters : List Meter
  pub number : ℕ

module _ (tls : TlsLib) where
  -- The configuration of a TLS server.
  abbrev pub Conf : Type 0
  Conf = TlsConfig tls.Cert

  -- daemon.ListenerSpec, with the two durations that PrepareListener uses.
  pub record Listener : Type 0 where
    pub addr : String
    pub tls_config : Option Conf
    pub fd_name : String
    pub inherit_only : Bool
    pub timeout : ℕ
    pub reaper_interval : ℕ

  -- nshttp.Server with its http.Server; the callback on changes of a connection is that of the
  -- timeout for new ones.
  pub record HttpServer : Type 0 where
    pub name : String
    pub handler : AuditHandler
    pub listeners : Option (List Listener)
    pub read_header_timeout : ℕ
    pub idle_timeout : ℕ
    pub read_timeout : ℕ
    pub write_timeout : ℕ
    pub new_active_timeout : ℕ
    pub keep_alives : Bool

  unfoldable pub listener_tls :
      (opens : String → Opened Conf)
      → Option TlsListenerConfig
      → TlsPluginRegistry Conf
      → Outcome (Result (Option Conf) × TlsPluginRegistry Conf)
  unfolding get_tls_server_config get_tls_server_config_with_plugin
  listener_tls opens none r = returns (gives none, r)
  listener_tls opens (some c) r =
      get_tls_server_config_with_plugin Conf opens (get_tls_server_config tls (some c.server))
        c.plugin r

  unfoldable pub listener_of : ListenerConfig → Option Conf → Listener
  listener_of l conf = record {
    addr = append l.address (append ":" (decimal l.port));
    tls_config = conf;
    fd_name = l.socket_fd_name;
    inherit_only = l.socket_inherit_only;
    timeout = l.io_activity_timeout;
    reaper_interval = l.io_activity_timeout / 2;
  }

  -- The round of a listener from its TLS configuration on; `more` are the other rounds.
  unfoldable pub after_tls :
      (more : TlsPluginRegistry Conf → Outcome (Result (List Listener) × TlsPluginRegistry Conf))
      → ListenerConfig
      → Result (Option Conf) × TlsPluginRegistry Conf
      → Outcome (Result (List Listener) × TlsPluginRegistry Conf)
  unfolding listener_of
  after_tls more l (fails e, r) = returns (fails e, r)
  after_tls more l (gives c, r) =
      more r >>= λ (ls, r'). returns (and_then ls (λ xs. gives (listener_of l c ∷ xs)), r')

  -- The loop over the listeners: an error ends it.
  unfoldable pub make_listeners :
      (opens : String → Opened Conf)
      → Dict ListenerConfig
      → TlsPluginRegistry Conf
      → Outcome (Result (List Listener) × TlsPluginRegistry Conf)
  unfolding listener_tls after_tls
  make_listeners opens [] r = returns (gives [], r)
  make_listeners opens ((name, l) ∷ rest) r =
      listener_tls opens l.tls r >>= after_tls (make_listeners opens rest) l

  abbrev pub listener_group : List Listener → Option (List Listener)
  listener_group [] = none
  listener_group (l ∷ ls) = some (l ∷ ls)

  unfoldable pub server_of :
      String → HttpServerConfig → AuditHandler → Result (List Listener) → Result HttpServer
  server_of name cfg handler ls = and_then ls λ listeners. gives (record {
    name = name;
    handler = handler;
    listeners = listener_group listeners;
    read_header_timeout = cfg.read_header_timeout;
    idle_timeout = cfg.idle_timeout;
    read_timeout = cfg.read_timeout;
    write_timeout = cfg.write_timeout;
    new_active_timeout = cfg.new_active_timeout;
    keep_alives = not cfg.disable_keep_alives;
  })

  unfoldable pub new_http_server :
      (opens : String → Opened Conf)
      → String
      → HttpServerConfig
      → TlsPluginRegistry Conf
      → AuditHandler
      → Outcome (Result HttpServer × TlsPluginRegistry Conf)
  unfolding make_listeners server_of
  new_http_server opens name cfg r handler = make_listeners opens cfg.listeners r >>= λ (ls, r').
      returns (server_of name cfg handler ls, r')
