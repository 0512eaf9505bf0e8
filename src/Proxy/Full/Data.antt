-- ===== src/Proxy/Full/Data.antt =====
-- Libraries for the tests: the text of a proxy's configuration is that of its virtual transport, in
-- which "pinned" pins requests. A URL is its text, and an upstream the number of its options.
use ozone.Prelude.{ℕ, String, ◌==◌, false, none, some, List, [], ◌∷◌, if◌then◌else◌}
use ozone.Prelude.Lists.{length}
use ozone.Prelude.Result.{fails, gives}
use ozone.Rproxymod.{base_module}
use ozone.TlsConf.{TlsLib}
use ozone.Proxy.Virtual.Build.{VirtualTransportConfig}
use ozone.Proxy.Build.{ModuleRegistry, ProxyConfig}
use ozone.Proxy.Full.{Outside}

abbrev pub tls_lib : TlsLib
tls_lib = record {
  Cert = ℕ;
  read_file = λ f. gives f;
  certs_of_pem = λ pem. none;
  load_pair = λ crt key. gives 2;
  openssl = λ spec. fails "no openssl";
}

abbrev pub virtual_config : ℕ → VirtualTransportConfig
virtual_config pin = record {
  kind = "RoundRobin";
  retries = 2;
  upstreams = ("a", "http://x/" ∷ "http://y/" ∷ []) ∷ [];
  config = none;
  max_fails = 3;
  quarantine = 60;
  backend_pin = pin;
  routing_key_header = "X-User";
}

abbrev pub proxy_config : String → ProxyConfig
proxy_config text = record {
  transport = some (record {
    kind = "Virtual";
    options = some text;
    tls = none;
    max_idle_conns = 0;
    max_idle_conns_per_host = 0;
    idle_conn_timeout = 0;
    io_activity_timeout = 0;
    tls_handshake_timeout = 0;
    response_header_timeout = 0;
    disable_keep_alives = false;
    disable_compression = false;
  });
  module_dir = "";
  modules = ("m", record { kind = "base"; config = "{}" }) ∷ [];
  module_order = "m" ∷ [];
  cache = none;
}

abbrev pub out : Outside tls_lib String (List ℕ)
out = record {
  caches = record {
    parse = λ js. gives none;
    parse_ybc = λ js cfg. gives cfg;
    open_simple_cache = λ n. gives tt;
  };
  upstreams = record {
    parse = λ js. gives (some (virtual_config (if js == "pinned" then 10 else 0)));
    parse_rr = λ js. gives none;
    parse_url = λ s. gives s;
    parse_request_uri = λ s. gives s;
    has_health_check = λ n. false;
    new_upstream = λ options. gives (length options ∷ []);
  };
  plugins = record {
    abs = λ d. gives d;
    read_dir = λ d. gives [];
    join = λ d f. f;
    load = λ f reg. gives reg;
  };
  parse = λ js. if js == "null" then gives none else gives (some (proxy_config js));
  wrap_error = λ e. e;
  wrapf = λ e m. m;
}

abbrev pub registry : ModuleRegistry
registry = ("base", λ js. gives base_module) ∷ []
