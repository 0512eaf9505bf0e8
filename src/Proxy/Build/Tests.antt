-- ===== src/Proxy/Build/Tests.antt =====
-- Proxies from small configurations.
use ozone.Prelude.Outcome.{returns, panics}
use ozone.Prelude.{◌==◌, if◌then◌else◌, ℕ, ◌≡◌, refl, false, [], ◌∷◌, none, some}
use ozone.Prelude.Dict.{lookup}
use ozone.Prelude.Result.{fails, gives}
use ozone.Rproxymod.{ProxyModule, base_module}
use ozone.TlsConf.{TlsLib}
use ozone.Proxy.Build.{
  Chain, InitVirtual, TransportConfig, virtual, ModuleRegistry, PluginLib, ProxyConfig, OzoneProxy,
  ProxyLib, is_so, new_proxy, deinit_proxy,
}

-- Proxies that are built: no plugins, one module type, and a cache that is a number.
abbrev no_plugins : PluginLib
no_plugins = record {
  abs = λ d. gives d;
  read_dir = λ d. gives ("README" ∷ []);
  join = λ d f. f;
  load = λ f reg. fails "not a plugin";
}

abbrev tls_lib : TlsLib
tls_lib = record {
  Cert = ℕ;
  read_file = λ f. gives f;
  certs_of_pem = λ pem. none;
  load_pair = λ crt key. gives 2;
  openssl = λ spec. fails "no openssl";
}

abbrev transport_config : TransportConfig
transport_config = record {
  kind = "";
  options = none;
  tls = none;
  max_idle_conns = 0;
  max_idle_conns_per_host = 0;
  idle_conn_timeout = 0;
  io_activity_timeout = 0;
  tls_handshake_timeout = 0;
  response_header_timeout = 0;
  disable_keep_alives = false;
  disable_compression = false;
}

abbrev proxy_config : ProxyConfig
proxy_config = record {
  transport = none;
  module_dir = "";
  modules = ("m", record { kind = "base"; config = "{}" }) ∷ [];
  module_order = "m" ∷ "m" ∷ [];
  cache = none;
}

abbrev virtual_config : ProxyConfig
virtual_config = record proxy_config {
  transport = some (record transport_config { kind = "Virtual" });
}

abbrev proxy_lib : ProxyLib tls_lib ℕ ℕ ℕ
proxy_lib = record {
  parse = λ js. if js == "null" then gives none else gives (some virtual_config);
  new_cache = λ c. gives 5;
  wrap_error = λ e. e;
  wrapf = λ e m. m;
}

-- The virtual transport is the number of its cache, and its service another number.
abbrev init_virtual : ℕ → InitVirtual tls_lib ℕ ℕ ℕ
init_virtual cc t options = returns (gives (cc, 6))

abbrev registry : ModuleRegistry
registry = ("base", λ js. gives base_module) ∷ []

abbrev chain : Chain tls_lib ℕ ℕ ℕ
chain = record {
  transport = virtual 5;
  modules = base_module ∷ base_module ∷ [];
  modnames = "m" ∷ "m" ∷ [];
  service = some 6;
}

abbrev built_proxy : OzoneProxy tls_lib ℕ ℕ ℕ
built_proxy = record { chain = chain; cache = 5 }

built :
    new_proxy tls_lib ℕ ℕ ℕ proxy_lib init_virtual no_plugins "/plugins" registry (some "")
    ≡ returns (gives (built_proxy, registry))
unfolding new_proxy lookup is_so
built = refl

null_config :
    new_proxy tls_lib ℕ ℕ ℕ proxy_lib init_virtual no_plugins "/plugins" registry (some "null")
    ≡ panics
unfolding new_proxy
null_config = refl

abbrev failing : ProxyModule
failing = record base_module { deinit = some "x" }

deinit_error : deinit_proxy (base_module ∷ failing ∷ []) none ≡ some " x"
unfolding deinit_proxy base_module
deinit_error = refl
