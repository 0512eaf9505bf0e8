-- ===== src/Server/Tests.antt =====
-- A configuration with one server and one handler, and the theorem at it.
use ozone.Prelude.{ℕ, ◌≡◌, refl, true, false, none, some, [], ◌∷◌}
use ozone.Prelude.Text.{decimal}
use ozone.Prelude.Dict.{lookup, insert}
use ozone.Prelude.Outcome.{returns, Ends}
use ozone.Prelude.Result.{fails, gives}
use ozone.Handler.Registry.{redirect, Env, refused, built, parsed}
use ozone.Handler.Spec.{single}
use ozone.AccessLog.{AccessLogs}
use ozone.TlsConf.{TlsLib}
use ozone.TlsPlugins as TlsPlugins
use ozone.TlsPlugins.{TlsPluginConfigureFunc}
use ozone.Server.Http.{ListenerConfig, HttpServerConfig, HttpServer}
use ozone.Server.{
  Config, http_server, ServerLib, nothing_with, instantiate_servers,
  instantiate_servers_from_config,
}
use ozone.Server.Laws.{IsInstantiated, instantiate_servers-IsInstantiated}

-- A certificate is a number.
abbrev tls : TlsLib
tls = record {
  Cert = ℕ;
  read_file = λ f. gives f;
  certs_of_pem = λ pem. none;
  load_pair = λ crt key. gives 2;
  openssl = λ spec. fails "no openssl";
}

-- No plugins; every redirect goes to /moved.
abbrev env : Env
env = record {
  load = λ p. refused "no plugins";
  new_proxy = λ name cfg. built 1 false;
  redirect_config = λ cfg. parsed "/moved" 302;
}

abbrev lib : ServerLib tls
lib = record {
  parse = λ text. gives none;
  parse_handler = λ js. gives (single js);
  wrap = λ e text. e;
  can_open = λ n file. true;
  hostname = none;
  env = env;
  opens = λ file. TlsPlugins.refused "no plugins";
  tls_plugin_path = "";
}

abbrev port_80 : ListenerConfig
port_80 = record {
  address = "localhost";
  port = 80;
  io_activity_timeout = 10;
  tls = none;
  socket_fd_name = "";
  socket_inherit_only = false;
}

abbrev www : HttpServerConfig
www = record {
  listeners = ("all", port_80) ∷ [];
  handler = "moved";
  access_log = "";
  metrics = "";
  disable_keep_alives = false;
  read_header_timeout = 1;
  idle_timeout = 2;
  read_timeout = 3;
  write_timeout = 4;
  new_active_timeout = 5;
}

abbrev cfg : Config
cfg = record {
  log = none;
  http_servers = ("www", www) ∷ [];
  handlers = ("moved", record { kind = "Redirect"; plugin = ""; metrics = ""; config = none }) ∷ [];
  metrics = none;
  sni = none;
  tls_plugins = [];
  tls_plugin_dir = "";
}

abbrev no_logs : AccessLogs
no_logs = record { registry = []; handlers = []; calls = []; next = 0 }

abbrev www_server : HttpServer tls
www_server = record {
  name = "www";
  handler = record { inner = some (redirect "/moved" 302); meters = []; number = 0 };
  listeners = some (
      record {
        addr = "localhost:80";
        tls_config = none;
        fd_name = "";
        inherit_only = false;
        timeout = 10;
        reaper_interval = 5;
      }
      ∷ []);
  read_header_timeout = 1;
  idle_timeout = 2;
  read_timeout = 3;
  write_timeout = 4;
  new_active_timeout = 5;
  keep_alives = true;
}

started :
    Ends
      (λ (err, s). (err ≡ none) × (s.servers ≡ http_server www_server ∷ []))
      (instantiate_servers tls lib [] [] [] cfg no_logs)
unfolding instantiate_servers lookup insert decimal
started = (refl, refl)

-- A configuration that is null starts nothing, and gives no error if Wrap of no error is none.
null_config :
    instantiate_servers_from_config tls lib [] [] [] "null" no_logs
    ≡ returns (nothing_with tls none none no_logs)
unfolding instantiate_servers_from_config
null_config = refl

instantiate_servers-IsInstantiated_example :
    Ends
      (IsInstantiated tls lib [] [] [] cfg no_logs)
      (instantiate_servers tls lib [] [] [] cfg no_logs)
instantiate_servers-IsInstantiated_example =
    instantiate_servers-IsInstantiated tls lib [] [] [] cfg no_logs
