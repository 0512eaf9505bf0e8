-- ===== src/Proxy/Full/Laws.antt =====
-- What a proxy with a virtual transport holds.
use ozone.Prelude.{String, ◌≡◌, sym, ap, ◌∙◌, some}
use ozone.Prelude.Dict.{IsMap}
use ozone.Prelude.Outcome.{returns}
use ozone.Prelude.Result.{gives, try-gives, gives-injective, returns-injective}
use ozone.TlsConf.{TlsLib}
use ozone.Cache.New.{Cache, new_cache}
use ozone.Proxy.Virtual.Build.{
  VirtualTransportConfig, VirtualTransport, virtual_of, init_virtual_transport,
}
use ozone.Proxy.Virtual.Laws.{virtual_of-IsBuilt}
use ozone.Proxy.Virtual.Laws as VirtualLaws
use ozone.Proxy.Build.{ModuleRegistry, ProxyConfig, virtual, kind_in, options_in}
use ozone.Proxy.Build.Laws.{Match, new_proxy-IsBuilt}
use ozone.Proxy.Full.{Outside, Proxy, Virtual, Services, proxy_lib, init_virtual, make_proxy}

module _ {tls : TlsLib} {Url Upstream : Type 0} (out : Outside tls Url Upstream) where
  init_virtual_transport-returns :
      (cc : Cache) (js : String) (cfg : VirtualTransportConfig)
      (vt : VirtualTransport Url Upstream Cache)
      → out.upstreams.parse js ≡ gives (some cfg)
      → init_virtual_transport Url Upstream Cache out.upstreams cc (some js) ≡ returns (gives vt)
      → virtual_of Url Upstream Cache out.upstreams (some cc) cfg ≡ gives vt
  unfolding init_virtual_transport
  init_virtual_transport-returns cc js cfg vt p e = returns-injective (rw p at e)

  -- The proxy holds the modules that are ordered, the cache that is configured, and a virtual
  -- transport of the configured upstreams whose pins are in that cache, with its services.
  abbrev pub IsComposed :
      ProxyConfig → VirtualTransportConfig → Proxy tls Url Upstream × ModuleRegistry → Type 0
  IsComposed cfg vcfg (p, reg) =
      Match reg cfg.modules cfg.module_order p.chain.modules
      × (new_cache out.caches cfg.cache ≡ gives p.cache)
      × ((vt : Virtual tls Url Upstream) × (p.chain.transport ≡ virtual vt)
          × (p.chain.service ≡ some vt.services)
          × VirtualLaws.IsBuilt out.upstreams (some p.cache) vcfg vt)

  -- A proxy that NewProxy makes of a configuration for a virtual transport, whose upstreams have
  -- different names, is put together of what the parts of the configuration make: the modules in their order, the cache, and the upstreams,
  -- which keep their pins in the proxy's own cache; its service runs the health checks of these
  -- upstreams.
  pub make_proxy-IsComposed :
      (path : String) (reg : ModuleRegistry) (js vjs : String) (cfg : ProxyConfig)
      (vcfg : VirtualTransportConfig) (r : Proxy tls Url Upstream × ModuleRegistry)
      → out.parse js ≡ gives (some cfg)
      → kind_in tls Cache (Virtual tls Url Upstream) (Services tls Url Upstream) cfg.transport
        ≡ "Virtual"
      → options_in tls Cache (Virtual tls Url Upstream) (Services tls Url Upstream) cfg.transport
        ≡ some vjs
      → out.upstreams.parse vjs ≡ gives (some vcfg)
      → IsMap vcfg.upstreams
      → make_proxy tls Url Upstream out path reg (some js) ≡ returns (gives r)
      → IsComposed cfg vcfg r
  unfolding make_proxy
  make_proxy-IsComposed path reg js vjs cfg vcfg r c k o v d e =
      let (cached, (match, names, (t, ht, (is_virtual, is_default, service)))) =
        new_proxy-IsBuilt (proxy_lib tls Url Upstream out) (init_virtual tls Url Upstream out)
          out.plugins path reg (some js) cfg r c e in
      let (vt', s, made, transport, run) = is_virtual k in
      let (vt, q, same) =
        try-gives (init_virtual_transport Url Upstream Cache out.upstreams r.0.cache (some vjs)) _
          (ap (λ x. init_virtual tls Url Upstream out r.0.cache t x) (sym o) ∙ made) in
      let pair = gives-injective (returns-injective same) in
      (
        match,
        cached,
        (
          vt,
          transport ∙ ap (λ x. virtual x.0) (sym pair),
          run ∙ ap (λ x. some x.1) (sym pair),
          (virtual_of-IsBuilt out.upstreams (some r.0.cache) vcfg vt d
              (init_virtual_transport-returns r.0.cache vjs vcfg vt v q)).1,
        ),
      )
