-- ===== src/Proxy/V2.antt =====
-- v2/handlers/rproxy/: NewProxy, Deinit and initVirtualTransport of the second version, which has no
-- cache: the pins are given none. The steps that are the same text in both versions are those of
-- Proxy/Build and Proxy/Virtual.
pub mod Unpinned
pub mod Laws
mod Tests
use ozone.Prelude.{String, Option, none, some, List, if◌then◌else◌}
use ozone.Prelude.Text.{is_empty}
use ozone.Prelude.Outcome.{Outcome, returns}
use ozone.Prelude.Result.{Result, gives, or_fail, try}
use ozone.Rproxymod.{ProxyModule}
use ozone.TlsConf.{TlsLib}
use ozone.Cache.New.{Cache}
use ozone.Proxy.Full.{Outside, Virtual, Services, proxy_lib}
use ozone.Proxy.Virtual.Build.{VirtualLib, VirtualTransport, init_with}
use ozone.Proxy.Build.{
  ModuleRegistry, PluginLib, ProxyConfig, ProxyLib, InitVirtual, Chain, scan_plugin_dir, dir_of,
  chain_of, parsed_proxy, not_nil, deinit_modules,
}

unfoldable pub init_virtual_transport_v2 :
    (Url Upstream Pins : Type 0)
    → VirtualLib Url Upstream Pins
    → Option String
    → Outcome (Result (VirtualTransport Url Upstream Pins))
unfolding init_with
init_virtual_transport_v2 Url Upstream Pins lib js = init_with Url Upstream Pins lib none js

module _ (tls : TlsLib) (Cache Virtual Service : Type 0) where
  -- OzoneProxy
  abbrev pub OzoneProxyV2 : Type 0
  OzoneProxyV2 = Chain tls Cache Virtual Service

  unfoldable pub proxy_of_v2 :
      ProxyLib tls Cache Virtual Service
      → InitVirtual tls Cache Virtual Service
      → PluginLib
      → (path : String) → ModuleRegistry
      → ProxyConfig
      → Outcome (Result (OzoneProxyV2 × ModuleRegistry))
  unfolding scan_plugin_dir chain_of
  proxy_of_v2 lib init plugins path reg cfg =
      or_fail (scan_plugin_dir plugins (dir_of tls Cache Virtual Service path cfg.module_dir) reg)
        λ reg'.
          try (chain_of tls Cache Virtual Service lib init reg' cfg)
            λ proxy. returns (gives (proxy, reg'))

  unfoldable pub new_proxy_v2 :
      ProxyLib tls Cache Virtual Service
      → InitVirtual tls Cache Virtual Service
      → PluginLib
      → (path : String) → ModuleRegistry
      → Option String
      → Outcome (Result (OzoneProxyV2 × ModuleRegistry))
  unfolding proxy_of_v2
  new_proxy_v2 lib init plugins path reg js =
      or_fail (parsed_proxy tls Cache Virtual Service lib js) λ parsed.
        not_nil tls Cache Virtual Service parsed λ cfg. proxy_of_v2 lib init plugins path reg cfg

-- Deinit
unfoldable pub deinit_proxy_v2 : List ProxyModule → Option String
unfolding deinit_modules
deinit_proxy_v2 ms = let text = deinit_modules ms "" in if is_empty text then none else some text

abbrev pub ProxyV2 : TlsLib → (Url Upstream : Type 0) → Type 0
ProxyV2 tls Url Upstream =
    OzoneProxyV2 tls Cache (Virtual tls Url Upstream) (Services tls Url Upstream)

-- NewProxy with initVirtualTransport, over the same libraries as the first version.
module _ (tls : TlsLib) (Url Upstream : Type 0) (out : Outside tls Url Upstream) where
  abbrev pub init_virtual_v2 :
      InitVirtual tls Cache (Virtual tls Url Upstream) (Services tls Url Upstream)
  init_virtual_v2 t options =
      try (init_virtual_transport_v2 Url Upstream Cache out.upstreams options)
        λ vt. returns (gives (vt, vt.services))

  unfoldable pub make_proxy_v2 :
      (path : String)
      → ModuleRegistry
      → Option String
      → Outcome (Result (ProxyV2 tls Url Upstream × ModuleRegistry))
  unfolding new_proxy_v2
  make_proxy_v2 path reg js =
      new_proxy_v2 tls Cache (Virtual tls Url Upstream) (Services tls Url Upstream)
        (proxy_lib tls Url Upstream out) init_virtual_v2 out.plugins path reg js
