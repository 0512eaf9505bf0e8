-- ===== src/Proxy/V2/Laws.antt =====
-- The proxies of the two versions.
use ozone.Prelude.{String, ◌≡◌, refl, ap, ◌∙◌, Option, some}
use ozone.Prelude.Outcome.{Outcome, returns}
use ozone.Prelude.Result.{Result, gives, try, or_fail-cong, try-or_fail, try-try}
use ozone.TlsConf.{TlsLib}
use ozone.Cache.New.{Cache, new_cache}
use ozone.Proxy.Virtual.Build.{init_virtual_transport}
use ozone.Proxy.V2.Unpinned.{Unpinned, init_with-Unpinned}
use ozone.Proxy.Build.{
  ModuleRegistry, PluginLib, ProxyConfig, OzoneProxy, ProxyLib, InitVirtual, scan_plugin_dir,
  dir_of, proxy_of, new_proxy, chain_of, make_transport, parsed_proxy, options_in, http_transport,
  Chain, HttpTransport,
}
use ozone.Proxy.Full.{init_virtual, Outside, Virtual, Services, proxy_lib, make_proxy}
use ozone.Proxy.V2.{
  make_proxy_v2, init_virtual_v2, init_virtual_transport_v2, new_proxy_v2, proxy_of_v2,
}

module _ {tls : TlsLib} {Cache Virtual Service : Type 0} (lib : ProxyLib tls Cache Virtual Service)
    (init init' : InitVirtual tls Cache Virtual Service) where
  chain_of-cong :
      (reg : ModuleRegistry) (cfg : ProxyConfig)
      → ((t : HttpTransport tls Cache Virtual Service)
          → init t (options_in tls Cache Virtual Service cfg.transport)
            ≡ init' t (options_in tls Cache Virtual Service cfg.transport))
      → chain_of tls Cache Virtual Service lib init reg cfg
        ≡ chain_of tls Cache Virtual Service lib init' reg cfg
  unfolding chain_of make_transport
  chain_of-cong reg cfg h =
      or_fail-cong (http_transport tls Cache Virtual Service cfg.transport) λ t p. rw (h t) refl

-- The result without the proxy's cache.
abbrev pub without_cache :
    {tls : TlsLib} {Cache Virtual Service : Type 0}
    → Outcome (Result (OzoneProxy tls Cache Virtual Service × ModuleRegistry))
    → Outcome (Result (Chain tls Cache Virtual Service × ModuleRegistry))
without_cache m = try m λ (p, reg). returns (gives (p.chain, reg))

module _ {tls : TlsLib} {Cache Virtual Service : Type 0} (lib : ProxyLib tls Cache Virtual Service)
    (init : Cache → InitVirtual tls Cache Virtual Service)
    (init' : InitVirtual tls Cache Virtual Service) where
  proxy_of_v2_eq :
      (plugins : PluginLib) (path : String) (reg : ModuleRegistry) (cfg : ProxyConfig)
      (cache : Cache)
      → lib.new_cache cfg.cache ≡ gives cache
      → ((t : HttpTransport tls Cache Virtual Service)
          → init cache t (options_in tls Cache Virtual Service cfg.transport)
            ≡ init' t (options_in tls Cache Virtual Service cfg.transport))
      → without_cache (proxy_of tls Cache Virtual Service lib init plugins path reg cfg)
        ≡ proxy_of_v2 tls Cache Virtual Service lib init' plugins path reg cfg
  unfolding proxy_of proxy_of_v2
  proxy_of_v2_eq plugins path reg cfg cache n h =
      let scanned =
        scan_plugin_dir plugins (dir_of tls Cache Virtual Service path cfg.module_dir) reg in
      try-or_fail scanned _ _
      ∙ or_fail-cong scanned λ reg' p. rw n (
          try-try (chain_of tls Cache Virtual Service lib (init cache) reg' cfg) _ _
          ∙ ap (λ m. try m λ chain. returns (gives (chain, reg')))
              (chain_of-cong lib (init cache) init' reg' cfg h))

module _ {tls : TlsLib} {Url Upstream : Type 0} (out : Outside tls Url Upstream) where
  init_virtual_transport_v2_eq :
      (cache : Cache) (js : Option String)
      → Unpinned out.upstreams js
      → init_virtual_transport Url Upstream Cache out.upstreams cache js
        ≡ init_virtual_transport_v2 Url Upstream Cache out.upstreams js
  unfolding init_virtual_transport init_virtual_transport_v2
  init_virtual_transport_v2_eq cache js u = init_with-Unpinned out.upstreams (some cache) js u

  -- NewProxy of the second version gives what that of the first gives, less the cache, if the cache
  -- of the configuration can be made and no requests are pinned: the same proxy and the same
  -- modules loaded, the same error or a panic.
  pub make_proxy_v2_lem :
      (path : String) (reg : ModuleRegistry) (js : Option String) (cfg : ProxyConfig)
      (cache : Cache)
      → parsed_proxy tls Cache
          (Virtual tls Url Upstream)
          (Services tls Url Upstream)
          (proxy_lib tls Url Upstream out)
          js
        ≡ gives (some cfg)
      → new_cache out.caches cfg.cache ≡ gives cache
      → Unpinned out.upstreams (
          options_in tls Cache (Virtual tls Url Upstream) (Services tls Url Upstream) cfg.transport)
      → without_cache (make_proxy tls Url Upstream out path reg js)
        ≡ make_proxy_v2 tls Url Upstream out path reg js
  unfolding make_proxy make_proxy_v2
  make_proxy_v2_lem path reg js cfg cache c n u =
      let same =
        proxy_of_v2_eq (proxy_lib tls Url Upstream out) (init_virtual tls Url Upstream out)
          (init_virtual_v2 tls Url Upstream out) out.plugins path reg cfg cache n
          (λ t.
            ap (λ m. try m λ vt. returns (gives (vt, vt.services)))
              (init_virtual_transport_v2_eq cache _ u)) in
      rw (c, new_proxy, new_proxy_v2) same
