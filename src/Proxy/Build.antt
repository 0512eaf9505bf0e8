-- ===== src/Proxy/Build.antt =====
-- handlers/rproxy/modules.go, and NewProxy and Deinit in ozoneproxy.go. The JSON parser, the file
-- system and the plugins are parameters, and so are the cache and the virtual transport.
pub mod Laws
mod Tests
use Prim.Native.String.{[] as nil, ◌∷◌ as cons}
use ozone.Prelude.{
  ℕ, String, ◌==◌, Bool, true, false, ◌||◌, Option, none, some, List, [], ◌∷◌, if◌then◌else◌,
}
use ozone.Prelude.Text.{append, is_empty}
use ozone.Prelude.Dict.{Dict, lookup, insert}
use ozone.Prelude.Outcome.{Outcome, returns, panics}
use ozone.Prelude.Result.{Result, fails, gives, and_then, or_fail, try}
use ozone.Rproxymod.{ProxyModule}
use ozone.TlsConf.{TlsLib, TlsConfig, TlsClientConfig, get_tls_client_config}

-- ModuleConfig; the configuration is its raw JSON.
pub record ModuleConfig : Type 0 where
  pub kind : String
  pub config : String

-- The InitModule function of a module type, and moduleRegistry.
abbrev pub InitFunc : Type 0
InitFunc = String → Result ProxyModule

abbrev pub ModuleRegistry : Type 0
ModuleRegistry = Dict InitFunc

unfoldable pub register_reverse_proxy_module : String → InitFunc → ModuleRegistry → ModuleRegistry
unfolding insert
register_reverse_proxy_module typename initfunc reg = insert typename initfunc reg

-- The InitModule functions of the five packages below handlers/rproxy/module.
pub record Builtins : Type 0 where
  pub forward_map_director : InitFunc
  pub host_suffix_director : InitFunc
  pub set_header : InitFunc
  pub proxypass : InitFunc
  pub backendsettings : InitFunc

unfoldable pub preload_builtin_modules : Builtins → ModuleRegistry → ModuleRegistry
unfolding insert
preload_builtin_modules b reg = insert "backendsettings" b.backendsettings (
    insert "proxypass" b.proxypass (
      insert "set_header" b.set_header (
        insert "host_suffix_director" b.host_suffix_director
          (insert "forward_map_director" b.forward_map_director reg))))

abbrev pub init_of : String → Option InitFunc → Result InitFunc
init_of kind none = fails (append "No such module type: " kind)
init_of kind (some f) = gives f

unfoldable pub proxy_module_for : ModuleRegistry → ModuleConfig → Result ProxyModule
unfolding lookup
proxy_module_for reg cfg = and_then (init_of cfg.kind (lookup cfg.kind reg)) λ f. f cfg.config

-- filepath.Abs, ioutil.ReadDir, filepath.Join, and plugin.Open, whose plugin may register modules.
pub record PluginLib : Type 0 where
  pub abs : String → Result String
  pub read_dir : String → Result (List String)
  pub join : String → String → String
  pub load : String → ModuleRegistry → Result ModuleRegistry

-- filepath.Ext(name) == ".so"
unfoldable pub is_so : String → Bool
is_so nil = false
is_so (cons c s) = (cons c s == ".so") || is_so s

unfoldable pub open_plugins :
    PluginLib → String → List String → ModuleRegistry → Result ModuleRegistry
unfolding is_so
open_plugins lib dir [] reg = gives reg
open_plugins lib dir (file ∷ files) reg =
    and_then (if is_so file then lib.load (lib.join dir file) reg else gives reg)
      λ reg'. open_plugins lib dir files reg'

unfoldable pub scan_plugin_dir : PluginLib → String → ModuleRegistry → Result ModuleRegistry
unfolding open_plugins
scan_plugin_dir lib dir reg =
    and_then (lib.abs dir)
      λ absdir. and_then (lib.read_dir absdir) λ files. open_plugins lib absdir files reg

-- TransportConfig; durations are numbers of nanoseconds, and `options` is its raw JSON.
pub record TransportConfig : Type 0 where
  pub kind : String
  pub options : Option String
  pub tls : Option TlsClientConfig
  pub max_idle_conns : ℕ
  pub max_idle_conns_per_host : ℕ
  pub idle_conn_timeout : ℕ
  pub io_activity_timeout : ℕ
  pub tls_handshake_timeout : ℕ
  pub response_header_timeout : ℕ
  pub disable_keep_alives : Bool
  pub disable_compression : Bool

pub record ProxyConfig : Type 0 where
  pub transport : Option TransportConfig
  pub module_dir : String
  pub modules : Dict ModuleConfig
  pub module_order : List String
  pub cache : Option String

module _ (tls : TlsLib) (Cache Virtual Service : Type 0) where
  -- The http.Transport of the configuration, with the TLS configuration, if there is one.
  pub record HttpTransport : Type 0 where
    pub config : Option TransportConfig
    pub tls_client_config : Option (TlsConfig tls.Cert)

  pub data Transport : Type 0 where
    no_transport : Transport
    default : HttpTransport → Transport
    virtual : Virtual → Transport

  -- The proxy but its cache, which it has in the first version only.
  pub record Chain : Type 0 where
    pub transport : Transport
    pub modules : List ProxyModule
    pub modnames : List String
    pub service : Option Service

  pub record OzoneProxy : Type 0 where
    pub chain : Chain
    pub cache : Cache

  -- What NewProxy calls: ParseInto of a configuration that is there, cache.NewCache, and the two
  -- functions that wrap an error.
  pub record ProxyLib : Type 0 where
    pub parse : String → Result (Option ProxyConfig)
    pub new_cache : Option String → Result Cache
    pub wrap_error : String → String
    pub wrapf : String → String → String

  -- initVirtualTransport, with the transport that it wraps.
  abbrev pub InitVirtual : Type 0
  InitVirtual = HttpTransport → Option String → Outcome (Result (Virtual × Service))

  abbrev pub kind_of : String → String
  kind_of kind = if kind == "" then "Default" else kind

  unfoldable pub http_transport : Option TransportConfig → Result HttpTransport
  unfolding get_tls_client_config
  http_transport none = gives (record { config = none; tls_client_config = none })
  http_transport (some c) =
      and_then (get_tls_client_config tls c.tls)
        λ t. gives (record { config = some c; tls_client_config = t })

  -- The switch over the type of the transport: an unknown one is printed, and there is none.
  abbrev pub switched :
      InitVirtual
      → HttpTransport
      → (kind : String) → Option String
      → Outcome (Result (Transport × Option Service))
  switched init t kind options =
      if kind == "Virtual"
      then try (init t options) (λ (v, s). returns (gives (virtual v, some s)))
      else if kind == "Default"
      then returns (gives (default t, none))
      else returns (gives (no_transport, none))

  abbrev pub kind_in : Option TransportConfig → String
  kind_in none = "Default"
  kind_in (some c) = kind_of c.kind

  abbrev pub options_in : Option TransportConfig → Option String
  options_in none = none
  options_in (some c) = c.options

  unfoldable pub make_transport :
      InitVirtual
      → HttpTransport
      → Option TransportConfig
      → Outcome (Result (Transport × Option Service))
  make_transport init t c = switched init t (kind_in c) (options_in c)

  abbrev pub wrapped : ProxyLib → ModuleConfig → Result ProxyModule → Result ProxyModule
  wrapped lib cfg (gives m) = gives m
  wrapped lib cfg (fails e) =
      fails (lib.wrap_error (lib.wrapf e (append "Configuring module " cfg.kind)))

  abbrev pub configured :
      ProxyLib → ModuleRegistry → String → Option ModuleConfig → Result ProxyModule
  configured lib reg name none = fails (lib.wrap_error (append "No such module: " name))
  configured lib reg name (some cfg) = wrapped lib cfg (proxy_module_for reg cfg)

  -- The loop over the order of the modules.
  unfoldable pub make_modules :
      ProxyLib → ModuleRegistry → Dict ModuleConfig → List String → Result (List ProxyModule)
  unfolding proxy_module_for lookup
  make_modules lib reg cfgs [] = gives []
  make_modules lib reg cfgs (name ∷ names) =
      and_then (configured lib reg name (lookup name cfgs))
        λ m. and_then (make_modules lib reg cfgs names) λ ms. gives (m ∷ ms)

  abbrev pub dir_of : (path : String) → String → String
  dir_of path dir = if is_empty dir then path else dir

  -- NewProxy, after the cache is made.
  unfoldable pub chain_of :
      ProxyLib → InitVirtual → ModuleRegistry → ProxyConfig → Outcome (Result Chain)
  unfolding http_transport make_transport make_modules
  chain_of lib init reg cfg = or_fail (http_transport cfg.transport) λ t.
      try (make_transport init t cfg.transport) λ (transport, service).
        or_fail (make_modules lib reg cfg.modules cfg.module_order) λ ms. returns (
          gives (record {
            transport = transport;
            modules = ms;
            modnames = cfg.module_order;
            service = service;
          }))

  -- NewProxy, for the parsed configuration; `path` is PLUGINPATH. The registry goes with the proxy.
  unfoldable pub proxy_of :
      ProxyLib
      → (Cache → InitVirtual)
      → PluginLib
      → (path : String) → ModuleRegistry
      → ProxyConfig
      → Outcome (Result (OzoneProxy × ModuleRegistry))
  unfolding scan_plugin_dir chain_of
  proxy_of lib init plugins path reg cfg =
      or_fail (scan_plugin_dir plugins (dir_of path cfg.module_dir) reg) λ reg'.
        or_fail (lib.new_cache cfg.cache) λ cc.
          try (chain_of lib (init cc) reg' cfg)
            λ chain. returns (gives (record { chain = chain; cache = cc }, reg'))

  -- The parse leaves a nil pointer if there is no configuration, or if it is null.
  abbrev pub parsed_proxy : ProxyLib → Option String → Result (Option ProxyConfig)
  parsed_proxy lib none = gives none
  parsed_proxy lib (some js) = lib.parse js

  -- A field of the configuration is read whether the pointer is nil or not.
  abbrev pub not_nil {ℓ} :
      {A : Type ℓ} → Option ProxyConfig → (ProxyConfig → Outcome (Result A)) → Outcome (Result A)
  not_nil none f = panics
  not_nil (some cfg) f = f cfg

  unfoldable pub new_proxy :
      ProxyLib
      → (Cache → InitVirtual)
      → PluginLib
      → (path : String) → ModuleRegistry
      → Option String
      → Outcome (Result (OzoneProxy × ModuleRegistry))
  unfolding proxy_of
  new_proxy lib init plugins path reg js =
      or_fail (parsed_proxy lib js)
        λ parsed. not_nil parsed λ cfg. proxy_of lib init plugins path reg cfg

-- Deinit: the texts of all errors, of the modules and then of the cache.
abbrev pub noted : String → Option String → String
noted text none = text
noted text (some e) = append text (append " " e)

unfoldable pub deinit_modules : List ProxyModule → String → String
deinit_modules [] text = text
deinit_modules (m ∷ ms) text = deinit_modules ms (noted text m.deinit)

unfoldable pub deinit_proxy : List ProxyModule → (closed : Option String) → Option String
unfolding deinit_modules
deinit_proxy ms closed =
    let text = noted (deinit_modules ms "") closed in if is_empty text then none else some text
