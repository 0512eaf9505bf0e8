-- ===== src/Handler/Registry.antt =====
-- handler.go, lines 18 to 268: the registry and the functions that resolve one name.
use ozone.Prelude.{ℕ, String, Bool, Option, none, some, List, [], ◌∷◌, if◌then◌else◌}
use ozone.Prelude.Text.{append}
use ozone.Prelude.Dict.{Dict, lookup, insert}
use ozone.Prelude.Outcome.{Outcome, returns, panics, ◌>>=◌}
use ozone.RequestMetrics.{Meter}

-- What an http.Handler of the daemon can be. The number tells apart the values that handler types,
-- plugins and static registrations supply.
mutual
  pub data Handler : Type 0 where
    supplied : ℕ → Handler
    proxy : ℕ → Handler
    redirect : String → ℕ → Handler
    audited : Handler → List Meter → Handler
    mux : Routes → Handler

  pub data Routes : Type 0 where
    no_route : Routes
    route : String → Handler → Routes → Routes

pub data Cleanup : Type 0 where
  proxy_deinit : ℕ → Cleanup
  supplied_cleanup : ℕ → Cleanup
  close_access_log : String → Cleanup

pub data Service : Type 0 where
  proxy_service : ℕ → Service

-- The results of a HandlerConfigureFunc, and the look-ups that it makes before it returns.
pub data Setup : Type 0 where
  finish : Option Handler → Option Cleanup → Option String → Setup
  ask : String → (Option Handler → Option String → Setup) → Setup

-- HandlerConfigureFunc: the name, the raw configuration, and the look-ups inside the tree.
abbrev pub HandlerConfigureFunc : Type 0
HandlerConfigureFunc = String → Option String → Setup

-- config.HandlerConfig; the configuration is its raw JSON.
pub record HandlerConfig : Type 0 where
  pub kind : String
  pub plugin : String
  pub metrics : String
  pub config : Option String

-- What filepath.Abs, plugin.Open, Lookup("HandlerTypes") and the type assertion give for a path.
-- An opened plugin has registered handler types by its init functions.
pub data Plugin : Type 0 where
  refused : String → Plugin
  untyped : Dict HandlerConfigureFunc → Plugin
  mistyped : Dict HandlerConfigureFunc → Plugin
  nil_map : Dict HandlerConfigureFunc → Plugin
  typed : Dict HandlerConfigureFunc → Dict HandlerConfigureFunc → Plugin

-- What rproxy.NewProxy gives: an error, or a proxy and whether it has a service, or a panic.
pub data NewProxy : Type 0 where
  crashed : NewProxy
  failed : String → NewProxy
  built : ℕ → Bool → NewProxy

-- What the parse of a RedirectHandlerConfig gives: an error, or the URL and the code, or the nil
-- pointer that null leaves.
pub data RedirectConfig : Type 0 where
  null_config : RedirectConfig
  malformed : String → RedirectConfig
  parsed : String → ℕ → RedirectConfig

pub record Env : Type 0 where
  pub load : String → Plugin
  pub new_proxy : String → Option String → NewProxy
  pub redirect_config : Option String → RedirectConfig

-- handlerRegistry, with the package's variables handlerTypes and staticHandlers and the handlers
-- of the access log command.
pub record HandlerRegistry : Type 0 where
  pub resolution_map : Dict Handler
  pub cfg : Dict HandlerConfig
  pub cleanups : List Cleanup
  pub services : List Service
  pub resolution_path : List String
  pub handler_types : Dict HandlerConfigureFunc
  pub static_handlers : Dict Handler
  pub log_handlers : Dict Handler

unfoldable pub new_handler_registry :
    Dict HandlerConfigureFunc → Dict Handler → Dict HandlerConfig → HandlerRegistry
new_handler_registry types statics cfg = record {
  resolution_map = [];
  cfg = cfg;
  cleanups = [];
  services = [];
  resolution_path = [];
  handler_types = types;
  static_handlers = statics;
  log_handlers = [];
}

-- RegisterHTTPHandlerType
unfoldable pub register_http_handler_type :
    String → HandlerConfigureFunc → HandlerRegistry → HandlerRegistry
register_http_handler_type name f r = record r { handler_types = insert name f r.handler_types }

-- RegisterStaticHTTPHandler
unfoldable pub register_static_http_handler : String → Handler → HandlerRegistry → HandlerRegistry
register_static_http_handler name h r = record r {
  static_handlers = insert name h r.static_handlers;
}

-- The results of handlerByName and of handlerForConfig.
pub record Answer : Type 0 where
  pub handler : Option Handler
  pub err : Option String

pub record Built : Type 0 where
  pub handler : Option Handler
  pub service : Option Service
  pub cleanup : Option Cleanup
  pub err : Option String

abbrev pub Call : Type 0
Call = String → HandlerRegistry → Outcome (Answer × HandlerRegistry)

-- A call of a HandlerConfigureFunc, whose look-ups are calls of `by_name`.
unfoldable pub run_setup : Call → Setup → HandlerRegistry → Outcome (Built × HandlerRegistry)
run_setup by_name (finish h c e) r =
    returns (record { handler = h; service = none; cleanup = c; err = e }, r)
run_setup by_name (ask name k) r =
    by_name name r >>= λ (a, r'). run_setup by_name (k a.handler a.err) r'

unfoldable pub register_all : Dict HandlerConfigureFunc → HandlerRegistry → HandlerRegistry
unfolding register_http_handler_type
register_all [] r = r
register_all ((k, f) ∷ m) r = register_all m (register_http_handler_type k f r)

abbrev pub no_handler : Option Cleanup → Option String → Built
no_handler c e = record { handler = none; service = none; cleanup = c; err = e }

-- The end of handlerFromPlugin: `f := (*m)[cfg.Type]`, and the call of it, which panics at nil.
unfoldable pub call_plugin_type :
    Call
    → String
    → HandlerConfig
    → Option HandlerConfigureFunc
    → HandlerRegistry
    → Outcome (Built × HandlerRegistry)
unfolding run_setup
call_plugin_type by_name name cfg none r = panics
call_plugin_type by_name name cfg (some f) r = run_setup by_name (f name cfg.config) r

unfoldable pub handler_from_plugin :
    Call → String → HandlerConfig → Plugin → HandlerRegistry → Outcome (Built × HandlerRegistry)
unfolding call_plugin_type register_all
handler_from_plugin by_name name cfg (refused e) r = returns (no_handler none (some e), r)
handler_from_plugin by_name name cfg (untyped types) r =
    returns (no_handler none none, register_all types r)
handler_from_plugin by_name name cfg (mistyped types) r = panics
handler_from_plugin by_name name cfg (nil_map types) r = panics
handler_from_plugin by_name name cfg (typed types m) r =
    call_plugin_type by_name name cfg (lookup cfg.kind m) (register_all types r)

-- The cases of the switch in handlerForConfig; `c` is the cleanup that a plugin may have left.
unfoldable pub reverse_proxy_handler : NewProxy → Option Cleanup → Outcome Built
reverse_proxy_handler crashed c = panics
reverse_proxy_handler (failed e) c = returns (no_handler c (some e))
reverse_proxy_handler (built n service) c = returns (record {
  handler = some (proxy n);
  service = if service then some (proxy_service n) else none;
  cleanup = some (proxy_deinit n);
  err = none;
})

unfoldable pub make_redirect_handler : RedirectConfig → Option Cleanup → Outcome Built
make_redirect_handler null_config c = panics
make_redirect_handler (malformed e) c = returns (no_handler c (some e))
make_redirect_handler (parsed url code) c =
    returns (record { handler = some (redirect url code); service = none; cleanup = c; err = none })

-- The default case: a registered handler type.
unfoldable pub registered_handler :
    Call
    → String
    → HandlerConfig
    → Option HandlerConfigureFunc
    → Option Cleanup
    → HandlerRegistry
    → Outcome (Built × HandlerRegistry)
unfolding run_setup
registered_handler by_name name cfg none c r =
    returns (no_handler c (some (append "No such Handler type: " cfg.kind)), r)
registered_handler by_name name cfg (some hinit) c r = run_setup by_name (hinit name cfg.config) r
