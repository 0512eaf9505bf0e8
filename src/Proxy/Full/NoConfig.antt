-- ===== src/Proxy/Full/NoConfig.antt =====
-- A reverse proxy without a configuration, from the resolution of its name on.
use ozone.Prelude.{arith, ℕ, suc, String, ◌==◌, ◌≡◌, refl, ap, true, false, Option, none, some}
use ozone.Prelude.Lists.{any}
use ozone.Prelude.Text.{is_empty}
use ozone.Prelude.Dict.{lookup}
use ozone.Prelude.Outcome.{panics}
use ozone.Prelude.Result.{gives}
use ozone.TlsConf.{TlsLib}
use ozone.Proxy.Build.{ModuleRegistry}
use ozone.Proxy.Full.{Outside, make_proxy, handler_env}
use ozone.Handler.Registry.{
  Env, Call, HandlerConfig, HandlerRegistry, Plugin, RedirectConfig, reverse_proxy_handler,
}
use ozone.Handler.Resolve.{handler_by_name, handler_for_config, push_path, configure}

module _ {tls : TlsLib} {Url Upstream : Type 0} (out : Outside tls Url Upstream) where
  -- The configuration is missing, or its text is parsed as null.
  abbrev pub IsNull : Option String → Type 0
  IsNull none = Unit
  IsNull (some js) = out.parse js ≡ gives none

  make_proxy-panics :
      (path : String) (reg : ModuleRegistry) (js : Option String)
      → IsNull js
      → make_proxy tls Url Upstream out path reg js ≡ panics
  unfolding make_proxy
  make_proxy-panics path reg none h = refl
  make_proxy-panics path reg (some js) h = rw h refl

  module _ (path : String) (reg : ModuleRegistry) (number : String → ℕ) (load : String → Plugin)
      (redirects : Option String → RedirectConfig) where
    abbrev env : Env
    env = handler_env tls Url Upstream out path reg number load redirects

    handler_for_config-panics :
        (by_name : Call) (name : String) (cfg : HandlerConfig) (r : HandlerRegistry)
        → is_empty cfg.plugin ≡ true
        → (cfg.kind == "ReverseProxy") ≡ true
        → IsNull cfg.config
        → handler_for_config env by_name name cfg r ≡ panics
    unfolding handler_for_config reverse_proxy_handler
    handler_for_config-panics by_name name cfg r p k h =
        rw (p, k, make_proxy-panics path reg cfg.config h) refl

    -- The resolution of a handler of the type ReverseProxy panics if its configuration is missing
    -- or null: for every such name that is configured without a plugin, and neither resolved nor
    -- being resolved.
    pub handler_by_name_no_config :
        (fuel : ℕ) (name : String) (cfg : HandlerConfig) (r : HandlerRegistry)
        → lookup name r.resolution_map ≡ none
        → lookup name r.cfg ≡ some cfg
        → any (λ n. n == name) r.resolution_path ≡ false
        → is_empty cfg.plugin ≡ true
        → cfg.kind ≡ "ReverseProxy"
        → IsNull cfg.config
        → handler_by_name env (suc fuel) name r ≡ panics
    unfolding handler_by_name configure
    handler_by_name_no_config fuel name cfg r m c e p k h = ground (
      arith,
      handler_for_config-panics (handler_by_name env fuel) name cfg (push_path name r) p
          (ap (λ t. t == "ReverseProxy") k) h,
    )
