-- ===== src/Server.antt =====
-- server.go, instantiateServersFromConfig: the servers of a configuration, with what cleans up after
-- them. The JSON parser, the plugins and the opening of files are parameters.
pub mod Http
pub mod Listeners
pub mod Logs
pub mod Loop
pub mod Laws
mod Tests
use ozone.Prelude.{
  ℕ, suc, String, ◌==◌, Bool, Option, none, some, List, [], ◌∷◌, ◌++◌, map, if◌then◌else◌,
}
use ozone.Prelude.Text.{is_empty}
use ozone.Prelude.Lists.{length}
use ozone.Prelude.Dict.{Dict}
use ozone.Prelude.Outcome.{Outcome, returns, ◌>>=◌}
use ozone.Prelude.Result.{Result, fails, gives}
use ozone.RequestMetrics.{Meter, metrics_function}
use ozone.Handler.Registry as Registry
use ozone.Handler.Registry.{
  Handler, HandlerConfig, HandlerConfigureFunc, HandlerRegistry, Service, Env, Answer, Call,
  new_handler_registry,
}
use ozone.Handler.Resolve.{handler_by_name}
use ozone.Handler.Spec.{HandlerSpec, handler_for_spec}
use ozone.AccessLog as AccessLog
use ozone.AccessLog.{AccessLogs, wrap_audit_handler}
use ozone.Metrics.{MetricsConfig, MetricsService, load_metrics_config}
use ozone.TlsConf.{TlsLib}
use ozone.TlsPlugins.{
  TlsPluginConfig, TlsPluginConfigureFunc, Opened, TlsPluginRegistry, new_tls_plugin_registry,
}
use ozone.Server.Http.{HttpServerConfig, AuditHandler, Conf, HttpServer, new_http_server}

-- Config; `log` is the access log of the section Log, if there is one.
pub record Config : Type 0 where
  pub log : Option String
  pub http_servers : Dict HttpServerConfig
  pub handlers : Dict HandlerConfig
  pub metrics : Option MetricsConfig
  pub sni : Option String
  pub tls_plugins : Dict TlsPluginConfig
  pub tls_plugin_dir : String

module _ (tls : TlsLib) where
  pub data Server : Type 0 where
    metrics_service : MetricsService → Server
    http_server : HttpServer tls → Server
    handler_service : Service → Server
    tls_service : ℕ → Server

  pub data ServerCleanup : Type 0 where
    log_cleanup : AccessLog.Cleanup → ServerCleanup
    handler_cleanup : Registry.Cleanup → ServerCleanup
    tls_cleanup : ℕ → ServerCleanup

  -- What the function calls: the parse of the configuration, which may give a nil pointer, and of
  -- the handler of a server, errors.Wrap of an error that may be nil, the calls of os.OpenFile, and
  -- what handlers and TLS plugins do.
  pub record ServerLib : Type 0 where
    pub parse : String → Result (Option Config)
    pub parse_handler : String → Result HandlerSpec
    pub wrap : Option String → String → Option String
    pub can_open : ℕ → String → Bool
    pub hostname : Option String
    pub env : Env
    pub opens : String → Opened (Conf tls)
    pub tls_plugin_path : String

  -- The variables of the function; the access logs are those of the process.
  pub record Instance : Type 0 where
    pub registry : HandlerRegistry
    pub plugins : TlsPluginRegistry (Conf tls)
    pub logs : AccessLogs
    pub servers : List Server
    pub cleanups : List ServerCleanup

  abbrev pub log_cleanups : Option AccessLog.Cleanup → List ServerCleanup
  log_cleanups none = []
  log_cleanups (some c) = log_cleanup c ∷ []

  abbrev pub server_meters : String → String → List Meter
  server_meters name metrics = if is_empty metrics then [] else metrics_function name metrics

  abbrev pub with_server : Result (HttpServer tls) → Instance → Option String × Instance
  with_server (fails e) s = (some e, s)
  with_server (gives h) s = (none, record s { servers = s.servers ++ http_server h ∷ [] })

  module _ (lib : ServerLib) where
    -- One round of the loop from the handler on: the wrapping, the cleanup and the server.
    unfoldable pub serve_handler :
        String
        → HttpServerConfig
        → (spec : String) → Option Handler
        → Instance
        → Outcome (Option String × Instance)
    unfolding new_http_server wrap_audit_handler metrics_function
    serve_handler name cfg spec h s =
        let number = length s.servers in
        let (cleanup, logs) = wrap_audit_handler lib.can_open name number spec s.logs in
        let handler : AuditHandler = record {
          inner = h;
          meters = server_meters name cfg.metrics;
          number = number;
        } in
        new_http_server tls lib.opens name cfg s.plugins handler >>= λ (srv, plugins). returns (
          with_server srv (record s {
            plugins = plugins;
            logs = logs;
            cleanups = s.cleanups ++ log_cleanups cleanup;
          }))

    -- The look-up of the handler, by the parsed specification.
    unfoldable pub look_up_handler :
        Call
        → String
        → HttpServerConfig
        → (spec : String) → Result HandlerSpec
        → Instance
        → Outcome (Option String × Instance)
    unfolding serve_handler handler_for_spec
    look_up_handler by_name name cfg spec (fails e) s = returns (some e, s)
    look_up_handler by_name name cfg spec (gives h) s =
        handler_for_spec by_name name h s.registry >>= λ (a, r). elim a.err [
          | some e ↦ returns (some e, record s { registry = r })
          | none ↦ serve_handler name cfg spec a.handler (record s { registry = r })
        ]

    -- After an error the loop ends; `more` are the other rounds.
    unfoldable pub next_server :
        (more : Instance → Outcome (Option String × Instance))
        → Option String × Instance
        → Outcome (Option String × Instance)
    next_server more (some e, s) = returns (some e, s)
    next_server more (none, s) = more s

    -- The loop over the servers; an access log of a server goes before the global one.
    unfoldable pub make_servers :
        Call
        → (default : String) → Dict HttpServerConfig
        → Instance
        → Outcome (Option String × Instance)
    unfolding look_up_handler next_server
    make_servers by_name default [] s = returns (none, s)
    make_servers by_name default ((name, cfg) ∷ rest) s =
        look_up_handler by_name name cfg
          (if is_empty cfg.access_log then default else cfg.access_log)
          (lib.parse_handler cfg.handler) s
        >>= next_server (make_servers by_name default rest)

    -- The end: what handlers and TLS plugins left, also after an error.
    unfoldable pub add_services : Option String × Instance → Option String × Instance
    add_services (err, s) = (
      err,
      record s {
        servers =
            s.servers
            ++ (map handler_service s.registry.services ++ map tls_service s.plugins.services);
        cleanups =
            s.cleanups
            ++ (map handler_cleanup s.registry.cleanups ++ map tls_cleanup s.plugins.cleanups);
      },
    )

    abbrev pub metrics_services : Option MetricsService → List Server
    metrics_services none = []
    metrics_services (some m) = metrics_service m ∷ []

    abbrev pub or_empty : Option String → String
    or_empty none = ""
    or_empty (some s) = s

    module _ (types : Dict HandlerConfigureFunc) (statics : Dict Handler)
        (tls_types : Dict (TlsPluginConfigureFunc (Conf tls))) where
      unfoldable pub begin : Config → AccessLogs → Instance
      unfolding new_handler_registry new_tls_plugin_registry load_metrics_config
      begin cfg logs = record {
        registry = new_handler_registry types statics cfg.handlers;
        plugins =
            new_tls_plugin_registry (Conf tls) lib.tls_plugin_path tls_types cfg.tls_plugin_dir
              cfg.tls_plugins cfg.sni;
        logs = logs;
        servers = metrics_services (load_metrics_config lib.hostname cfg.metrics);
        cleanups = [];
      }

      -- The function, for a configuration that is not nil; the look-ups of handlers have fuel for
      -- each configured handler and one more.
      unfoldable pub instantiate_servers : Config → AccessLogs → Outcome (Option String × Instance)
      unfolding begin make_servers handler_by_name add_services
      instantiate_servers cfg logs =
          make_servers (handler_by_name lib.env (suc (length cfg.handlers))) (or_empty cfg.log)
            cfg.http_servers (begin cfg logs)
          >>= λ end. returns (add_services end)

  -- The results of instantiateServersFromConfig; the configuration may be nil.
  pub record Instantiated : Type 0 where
    pub servers : List Server
    pub cleanups : List ServerCleanup
    pub config : Option Config
    pub err : Option String
    pub logs : AccessLogs

  abbrev pub nothing_with : Option Config → Option String → AccessLogs → Instantiated
  nothing_with cfg e logs = record {
    servers = [];
    cleanups = [];
    config = cfg;
    err = e;
    logs = logs;
  }

  unfoldable pub instantiate_servers_from_config :
      ServerLib
      → Dict HandlerConfigureFunc
      → Dict Handler
      → Dict (TlsPluginConfigureFunc (Conf tls))
      → String
      → AccessLogs
      → Outcome Instantiated
  unfolding instantiate_servers
  instantiate_servers_from_config lib types statics tls_types text logs = elim (lib.parse text) [
    | fails e ↦ returns (nothing_with none (lib.wrap (some e) "Config error") logs)
    | gives none ↦ returns (nothing_with none (lib.wrap none "Config error") logs)
    | gives (some cfg) ↦ instantiate_servers lib types statics tls_types cfg logs >>= λ (err, s).
        returns (record {
          servers = s.servers;
          cleanups = s.cleanups;
          config = some cfg;
          err = err;
          logs = s.logs;
        })
  ]
