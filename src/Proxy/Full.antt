-- ===== src/Proxy/Full.antt =====
-- handlers/rproxy/: NewProxy with the cache of handlers/rproxy/cache/ and with initVirtualTransport,
-- as handler.go calls it. What the libraries do is a parameter.
pub mod Laws
pub mod NoConfig
pub mod Data
pub mod Pins
mod Tests
use ozone.Prelude.{ℕ, String, Option, List, is_some}
use ozone.Prelude.Dict.{Dict}
use ozone.Prelude.Outcome.{Outcome, returns, panics, exhausted}
use ozone.Prelude.Result.{Result, fails, gives, try}
use ozone.TlsConf.{TlsLib}
use ozone.Cache.New.{Cache, CacheLib, new_cache}
use ozone.Proxy.Virtual.Build.{RrOption, VirtualLib, VirtualTransport, init_virtual_transport}
use ozone.Proxy.Build.{
  ModuleRegistry, PluginLib, ProxyConfig, OzoneProxy, ProxyLib, InitVirtual, new_proxy,
}
use ozone.Handler.Registry.{Env, Plugin, NewProxy, crashed, failed, built, RedirectConfig}

module _ (tls : TlsLib) (Url Upstream : Type 0) where
  abbrev pub Virtual : Type 0
  Virtual = VirtualTransport Url Upstream Cache

  abbrev pub Services : Type 0
  Services = List (RrOption Url Upstream Cache)

  abbrev pub Proxy : Type 0
  Proxy = OzoneProxy tls Cache Virtual Services

  -- What the code calls and the repository does not have.
  pub record Outside : Type 0 where
    pub caches : CacheLib
    pub upstreams : VirtualLib Url Upstream Cache
    pub plugins : PluginLib
    pub parse : String → Result (Option ProxyConfig)
    pub wrap_error : String → String
    pub wrapf : String → String → String

  module _ (out : Outside) where
    abbrev pub proxy_lib : ProxyLib tls Cache Virtual Services
    proxy_lib = record {
      parse = out.parse;
      new_cache = new_cache out.caches;
      wrap_error = out.wrap_error;
      wrapf = out.wrapf;
    }

    abbrev pub init_virtual : Cache → InitVirtual tls Cache Virtual Services
    init_virtual cc t options =
        try (init_virtual_transport Url Upstream Cache out.upstreams cc options)
          λ vt. returns (gives (vt, vt.services))

    -- NewProxy; `path` is PLUGINPATH.
    unfoldable pub make_proxy :
        (path : String) → ModuleRegistry → Option String → Outcome (Result (Proxy × ModuleRegistry))
    unfolding new_proxy
    make_proxy path reg js =
        new_proxy tls Cache Virtual Services proxy_lib init_virtual out.plugins path reg js

    -- What handlerForConfig sees of it: whether it is a proxy, its number, and whether Service gives
    -- one.
    abbrev pub seen : ℕ → Outcome (Result (Proxy × ModuleRegistry)) → NewProxy
    seen n (returns (fails e)) = failed e
    seen n (returns (gives (p, reg))) = built n (is_some p.chain.service)
    seen n panics = crashed
    seen n exhausted = crashed

    -- The environment of the handler registry, for a state of the registry of modules.
    abbrev pub handler_env :
        (path : String)
        → ModuleRegistry
        → (number : String → ℕ) → (load : String → Plugin)
        → (redirects : Option String → RedirectConfig) → Env
    handler_env path reg number load redirects = record {
      load = load;
      new_proxy = λ name js. seen (number name) (make_proxy path reg js);
      redirect_config = redirects;
    }
