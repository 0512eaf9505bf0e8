-- ===== src/Proxy/Build/Laws.antt =====
-- The modules and the transport of a proxy that NewProxy has made.
use Prim.Native.String.{[] as nil, ◌∷◌ as cons}
use text.Mathlib.TextLemmas.{cons-append, nil-append}
use ozone.Prelude.{
  String, sym, ap, ◌==◌, Bool-cases, inl, inr, ◌≡◌, refl, subst, false, Option, none, some, List,
  [], ◌∷◌, not, ◌&&◌, ◌||◌, ◌↔◌, ◌∙◌, is_some, arith, true,
}
use ozone.Prelude.Lists.{any}
use ozone.Prelude.Text.{append, is_empty}
use ozone.Prelude.Dict.{Dict, lookup}
use ozone.Prelude.Result.{
  Result, fails, gives, and_then-gives, gives-injective, or_fail-gives, try-gives,
  returns-injective,
}
use ozone.Prelude.Outcome.{returns}
use ozone.Rproxymod.{ProxyModule}
use ozone.TlsConf.{TlsLib}
use ozone.Proxy.Build.{
  ModuleConfig, ModuleRegistry, PluginLib, ProxyConfig, OzoneProxy, ProxyLib, proxy_module_for,
  Chain, HttpTransport, InitVirtual, Transport, default, virtual, TransportConfig, kind_in,
  options_in, chain_of, parsed_proxy, scan_plugin_dir, dir_of, http_transport, make_transport,
  make_modules, configured, wrapped, proxy_of, new_proxy, noted, deinit_modules, deinit_proxy,
}

-- The modules are those that the registry makes of the configurations of the names, in order.
abbrev pub Match : ModuleRegistry → Dict ModuleConfig → List String → List ProxyModule → Type 0
Match reg cfgs [] [] = Unit
Match reg cfgs [] (m ∷ ms) = ⊥
Match reg cfgs (name ∷ names) [] = ⊥
Match reg cfgs (name ∷ names) (m ∷ ms) =
    ((cfg : ModuleConfig) × (lookup name cfgs ≡ some cfg) × (proxy_module_for reg cfg ≡ gives m))
    × Match reg cfgs names ms

module _ {tls : TlsLib} {Cache Virtual Service : Type 0}
    (lib : ProxyLib tls Cache Virtual Service) where
  configured-gives :
      (reg : ModuleRegistry) (name : String) (c : Option ModuleConfig) (m : ProxyModule)
      → configured tls Cache Virtual Service lib reg name c ≡ gives m
      → (cfg : ModuleConfig) × (c ≡ some cfg) × (proxy_module_for reg cfg ≡ gives m)
  configured-gives reg name none m e = cc
  configured-gives reg name (some cfg) m e = (cfg, refl, unwrap (proxy_module_for reg cfg) e)
    where
      unwrap :
          (r : Result ProxyModule)
          → wrapped tls Cache Virtual Service lib cfg r ≡ gives m
          → r ≡ gives m
      unwrap (gives n) h = h
      unwrap (fails t) h = cc

  make_modules-Match :
      (reg : ModuleRegistry) (cfgs : Dict ModuleConfig) (names : List String)
      (ms : List ProxyModule)
      → make_modules tls Cache Virtual Service lib reg cfgs names ≡ gives ms
      → Match reg cfgs names ms
  unfolding make_modules
  make_modules-Match reg cfgs [] ms e = subst (Match reg cfgs []) (gives-injective e) tt
  make_modules-Match reg cfgs (name ∷ names) ms e =
      let (m, p, e1) =
        and_then-gives (configured tls Cache Virtual Service lib reg name (lookup name cfgs)) _ e in
      let (rest, q, e2) =
        and_then-gives (make_modules tls Cache Virtual Service lib reg cfgs names) _ e1 in
      subst (Match reg cfgs (name ∷ names)) (gives-injective e2)
        (configured-gives reg name (lookup name cfgs) m p, make_modules-Match reg cfgs names rest q)

  -- The transport for the type of the configuration, and its service, of a proxy whose HTTP
  -- transport is `t`.
  abbrev pub IsTransport :
      (InitVirtual tls Cache Virtual Service)
      → Option TransportConfig
      → HttpTransport tls Cache Virtual Service
      → Chain tls Cache Virtual Service
      → Type 0
  IsTransport init c t chain =
      (kind_in tls Cache Virtual Service c ≡ "Virtual"
        → (v : Virtual) × (s : Service) × (init t (options_in tls Cache Virtual Service c)
            ≡ returns (gives (v, s)))
          × (chain.transport ≡ virtual v)
          × (chain.service ≡ some s))
      × (kind_in tls Cache Virtual Service c ≡ "Default" → chain.transport ≡ default t)
      × (is_some chain.service ≡ (kind_in tls Cache Virtual Service c == "Virtual"))

  -- What NewProxy makes after the cache.
  abbrev pub IsChain :
      (InitVirtual tls Cache Virtual Service)
      → ModuleRegistry
      → ProxyConfig
      → Chain tls Cache Virtual Service
      → Type 0
  IsChain init reg cfg chain =
      Match reg cfg.modules cfg.module_order chain.modules
      × (chain.modnames ≡ cfg.module_order)
      × ((t : HttpTransport tls Cache Virtual Service) × (http_transport tls Cache Virtual Service
              cfg.transport
            ≡ gives t)
          × IsTransport init cfg.transport t chain)

  module _ (init : InitVirtual tls Cache Virtual Service) where
    make_transport-IsTransport :
        (t : HttpTransport tls Cache Virtual Service) (c : Option TransportConfig)
        (r : Transport tls Cache Virtual Service × Option Service) (ms : List ProxyModule)
        (names : List String)
        → make_transport tls Cache Virtual Service init t c ≡ returns (gives r)
        → IsTransport init c t
            (record { transport = r.0; modules = ms; modnames = names; service = r.1 })
    unfolding make_transport
    make_transport-IsTransport t c r ms names e =
        let kind = kind_in tls Cache Virtual Service c in
        let options = options_in tls Cache Virtual Service c in
        elim (Bool-cases (kind == "Virtual")) [
          | inl is_virtual ↦
              let ((v, s), p, e1) = try-gives (init t options) _ (rw is_virtual at e) in
              let made = gives-injective (returns-injective e1) in
              (
                λ k. (v, s, p, sym (ap (λ x. x.0) made), sym (ap (λ x. x.1) made)),
                λ k. let wrong : ("Default" == "Virtual") ≡ true = rw k at is_virtual in cc,
                ap (λ x. is_some x.1) (sym made) ∙ sym is_virtual,
              )
          | inr not_virtual ↦ elim (Bool-cases (kind == "Default")) [
            | inl is_default ↦
                let made =
                  gives-injective (returns-injective (rw (not_virtual, is_default) at e)) in
                (
                  λ k. let wrong : ("Virtual" == "Virtual") ≡ false = rw k at not_virtual in cc,
                  λ k. sym (ap (λ x. x.0) made),
                  ap (λ x. is_some x.1) (sym made) ∙ sym not_virtual,
                )
            | inr not_default ↦
                let made =
                  gives-injective (returns-injective (rw (not_virtual, not_default) at e)) in
                (
                  λ k. let wrong : ("Virtual" == "Virtual") ≡ false = rw k at not_virtual in cc,
                  λ k. let wrong : ("Default" == "Default") ≡ false = rw k at not_default in cc,
                  ap (λ x. is_some x.1) (sym made) ∙ sym not_virtual,
                )
          ]
        ]

    chain_of-IsChain :
        (reg : ModuleRegistry) (cfg : ProxyConfig) (chain : Chain tls Cache Virtual Service)
        → chain_of tls Cache Virtual Service lib init reg cfg ≡ returns (gives chain)
        → IsChain init reg cfg chain
    unfolding chain_of
    chain_of-IsChain reg cfg chain e =
        let (t, p1, e1) =
          or_fail-gives (http_transport tls Cache Virtual Service cfg.transport) _ e in
        let (r, p2, e2) =
          try-gives (make_transport tls Cache Virtual Service init t cfg.transport) _ e1 in
        let (ms, p3, e3) =
          or_fail-gives
            (make_modules tls Cache Virtual Service lib reg cfg.modules cfg.module_order) _ e2 in
        subst (IsChain init reg cfg) (gives-injective (returns-injective e3)) (
          make_modules-Match reg cfg.modules cfg.module_order ms p3,
          refl,
          (t, p1, make_transport-IsTransport t cfg.transport r ms cfg.module_order p2),
        )

  -- What a proxy holds.
  abbrev pub IsBuilt :
      (Cache → InitVirtual tls Cache Virtual Service)
      → ProxyConfig
      → OzoneProxy tls Cache Virtual Service × ModuleRegistry
      → Type 0
  IsBuilt init cfg (p, reg) =
      (lib.new_cache cfg.cache ≡ gives p.cache) × IsChain (init p.cache) reg cfg p.chain

  -- A proxy that NewProxy makes has, in the order of the configuration, for each name the module
  -- that the registry, after the plugins are loaded, makes of the configuration of that name. It has
  -- the cache of the configuration, a virtual transport over that cache if the configuration asks
  -- for one, the HTTP transport if it asks for that or says nothing, and a service exactly if its
  -- transport is virtual.
  pub new_proxy-IsBuilt :
      (init : Cache → InitVirtual tls Cache Virtual Service) (plugins : PluginLib) (path : String)
      (reg : ModuleRegistry) (js : Option String) (cfg : ProxyConfig)
      (r : OzoneProxy tls Cache Virtual Service × ModuleRegistry)
      → parsed_proxy tls Cache Virtual Service lib js ≡ gives (some cfg)
      → new_proxy tls Cache Virtual Service lib init plugins path reg js ≡ returns (gives r)
      → IsBuilt init cfg r
  unfolding new_proxy proxy_of
  new_proxy-IsBuilt init plugins path reg js cfg r c e =
      let (reg', p1, e1) =
        or_fail-gives
          (scan_plugin_dir plugins (dir_of tls Cache Virtual Service path cfg.module_dir) reg) _
          (rw (c, new_proxy) at e) in
      let (cc', p2, e2) = or_fail-gives (lib.new_cache cfg.cache) _ e1 in
      let (chain, p3, e3) =
        try-gives (chain_of tls Cache Virtual Service lib (init cc') reg' cfg) _ e2 in
      subst (IsBuilt init cfg) (gives-injective (returns-injective e3))
        (p2, chain_of-IsChain (init cc') reg' cfg chain p3)

is_empty-noted :
    (text : String) (e : Option String)
    → is_empty (noted text e) ≡ (is_empty text && not (is_some e))
is_empty-noted nil none = refl
is_empty-noted (cons c s) none = refl
is_empty-noted nil (some e) = rw (nil-append (append " " e), cons-append " " nil e) refl
is_empty-noted (cons c s) (some e) = rw (cons-append c s (append " " e)) refl

is_empty-deinit_modules :
    (ms : List ProxyModule) (text : String)
    → is_empty (deinit_modules ms text) ≡ (is_empty text && not (any (λ m. is_some m.deinit) ms))
unfolding deinit_modules
is_empty-deinit_modules [] text = ground arith
is_empty-deinit_modules (m ∷ ms) text =
    is_empty-deinit_modules ms (noted text m.deinit) ∙ ground (arith, is_empty-noted text m.deinit)

-- Deinit gives no error exactly if no module and not the cache gave one: an error of one module
-- neither hides those of the others nor is hidden.
pub deinit_proxy-none :
    (ms : List ProxyModule) (closed : Option String)
    → (deinit_proxy ms closed ≡ none) ↔ ((any (λ m. is_some m.deinit) ms || is_some closed) ≡ false)
unfolding deinit_proxy
deinit_proxy-none ms closed =
    ground (arith, is_empty-noted (deinit_modules ms "") closed, is_empty-deinit_modules ms "")
