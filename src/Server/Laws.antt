-- ===== src/Server/Laws.antt =====
-- What the result of instantiateServersFromConfig is put together of.
use ozone.Prelude.{suc, String, ◌≡◌, refl, Option, none, List, ◌++◌, map, append_assoc, arith}
use ozone.Prelude.Lists.{length}
use ozone.Prelude.Dict.{Dict}
use ozone.Prelude.Outcome.{Ends, Ends->>=}
use ozone.Handler.Registry.{Handler, HandlerConfigureFunc, new_handler_registry}
use ozone.AccessLog as AccessLog
use ozone.AccessLog.{AccessLogs, wrap_audit_handler}
use ozone.Metrics.{load_metrics_config}
use ozone.TlsConf.{TlsLib}
use ozone.TlsPlugins.{TlsPluginConfigureFunc}
use ozone.Server.Http.{Conf, HttpServer}
use ozone.Server.Logs.{turned_on, server_of, logged}
use ozone.Server.Loop.{Served, Looped, by_name, make_servers-Looped}
use ozone.Server.{
  Config, http_server, handler_service, tls_service, log_cleanup, handler_cleanup, tls_cleanup,
  ServerLib, Instance, add_services, metrics_services, or_empty, begin, instantiate_servers,
}

module _ (tls : TlsLib) (lib : ServerLib tls) (types : Dict HandlerConfigureFunc)
    (statics : Dict Handler) (tls_types : Dict (TlsPluginConfigureFunc (Conf tls))) where
  -- The cleanups of access logs are those of exactly the logs that were turned on.
  abbrev pub IsInstantiated : Config → AccessLogs → Option String × Instance tls → Type 0
  IsInstantiated cfg before (err, s) =
      (hs : List (HttpServer tls)) × (logs : List AccessLog.Cleanup) × (s.servers
        ≡ metrics_services tls lib (load_metrics_config lib.hostname cfg.metrics)
          ++ (map http_server hs
              ++ (map handler_service s.registry.services ++ map tls_service s.plugins.services)))
      × (s.cleanups
          ≡ map log_cleanup logs
            ++ (map handler_cleanup s.registry.cleanups ++ map tls_cleanup s.plugins.cleanups))
      × (s.logs.calls ≡ before.calls ++ map turned_on logs)
      × (err ≡ none
          → Served tls lib cfg.handlers cfg.http_servers hs
            × (map server_of logs ≡ logged (or_empty tls lib cfg.log) cfg.http_servers))

  -- Whatever the configuration, instantiateServersFromConfig ends, by a return or a panic. Where it
  -- returns, with an error or without: the servers are the metrics service if there is one, HTTP
  -- servers, and the services of the handlers and of the TLS plugins; the cleanups are one for each
  -- access log that it has turned on, in their order, and those of the handlers and of the TLS
  -- plugins. Without an error there is exactly one HTTP server for each configured one, in their
  -- order, with its name, its meters and its listeners, and an access log for each whose own
  -- destination, or else the global one, is not empty.
  pub instantiate_servers-IsInstantiated :
      (cfg : Config) (logs : AccessLogs)
      → Ends
          (IsInstantiated cfg logs)
          (instantiate_servers tls lib types statics tls_types cfg logs)
  unfolding instantiate_servers Looped add_services by_name begin new_handler_registry
  instantiate_servers-IsInstantiated cfg logs =
      Ends->>=
        (Looped tls lib cfg.handlers (or_empty tls lib cfg.log) cfg.http_servers
          (begin tls lib types statics tls_types cfg logs))
        (IsInstantiated cfg logs) _ _
        (make_servers-Looped tls lib cfg.handlers (suc (length cfg.handlers)) (omega arith) _
          cfg.http_servers (begin tls lib types statics tls_types cfg logs)
          (record { configured = refl; path = refl }))
        λ (err, s) (hs, ls, g, all).
          (hs, ls, rw (g.servers, append_assoc) refl, rw g.cleanups refl, g.calls, all)
