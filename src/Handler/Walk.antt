-- ===== src/Handler/Walk.antt =====
-- An invariant of the registry that the look-ups of a HandlerConfigureFunc keep, and that the
-- registration of a handler type keeps, holds after the whole of handlerForConfig.
use ozone.Prelude.{String, ◌==◌, ◌||◌, inl, inr, Bool-cases, Option, none, some, [], ◌∷◌, is_some}
use ozone.Prelude.Text.{is_empty}
use ozone.Prelude.Dict.{Dict, lookup}
use ozone.Prelude.Outcome.{returns, ◌>>=◌, Ends, Ends->>=}
use ozone.Handler.Registry.{
  Setup, finish, ask, Plugin, refused, untyped, mistyped, nil_map, typed, HandlerConfig,
  HandlerConfigureFunc, HandlerRegistry, Env, Call, run_setup, register_all,
  register_http_handler_type, call_plugin_type, handler_from_plugin, registered_handler, Cleanup,
  NewProxy, crashed, failed, built, RedirectConfig, null_config, malformed, parsed,
  reverse_proxy_handler, make_redirect_handler,
}
use ozone.Handler.Resolve.{builtin_handler, handler_for_config}

-- The invariant of the registry that a call returns with its result.
abbrev pub After {ℓ} : {A : Type ℓ} → (HandlerRegistry → Type 0) → A × HandlerRegistry → Type 0
After I (a, r) = I r

module _ (I : HandlerRegistry → Type 0) (by_name : Call)
    (calls : (name : String) (r : HandlerRegistry) → I r → Ends (After I) (by_name name r))
    (types : (name : String) (f : HandlerConfigureFunc) (r : HandlerRegistry)
      → I r
      → I (register_http_handler_type name f r)) where
  run_setup-Ends : (s : Setup) (r : HandlerRegistry) → I r → Ends (After I) (run_setup by_name s r)
  unfolding run_setup
  run_setup-Ends (finish h c e) r i = i
  run_setup-Ends (ask name k) r i =
      Ends->>= (After I) (After I) (by_name name r) _ (calls name r i)
        λ (a, r') j. run_setup-Ends (k a.handler a.err) r' j

  register_all-keeps :
      (m : Dict HandlerConfigureFunc) (r : HandlerRegistry) → I r → I (register_all m r)
  unfolding register_all
  register_all-keeps [] r i = i
  register_all-keeps ((k, f) ∷ m) r i = register_all-keeps m _ (types k f r i)

  call_plugin_type-Ends :
      (name : String) (cfg : HandlerConfig) (f : Option HandlerConfigureFunc) (r : HandlerRegistry)
      → I r
      → Ends (After I) (call_plugin_type by_name name cfg f r)
  unfolding call_plugin_type
  call_plugin_type-Ends name cfg none r i = tt
  call_plugin_type-Ends name cfg (some f) r i = run_setup-Ends (f name cfg.config) r i

  registered_handler-Ends :
      (name : String) (cfg : HandlerConfig) (f : Option HandlerConfigureFunc) (c : Option Cleanup)
      (r : HandlerRegistry)
      → I r
      → Ends (After I) (registered_handler by_name name cfg f c r)
  unfolding registered_handler
  registered_handler-Ends name cfg none c r i = i
  registered_handler-Ends name cfg (some f) c r i = run_setup-Ends (f name cfg.config) r i

  handler_from_plugin-Ends :
      (name : String) (cfg : HandlerConfig) (p : Plugin) (r : HandlerRegistry)
      → I r
      → Ends (After I) (handler_from_plugin by_name name cfg p r)
  unfolding handler_from_plugin
  handler_from_plugin-Ends name cfg (refused e) r i = i
  handler_from_plugin-Ends name cfg (untyped m) r i = register_all-keeps m r i
  handler_from_plugin-Ends name cfg (mistyped m) r i = tt
  handler_from_plugin-Ends name cfg (nil_map m) r i = tt
  handler_from_plugin-Ends name cfg (typed m t) r i =
      call_plugin_type-Ends name cfg (lookup cfg.kind t) _ (register_all-keeps m r i)

  reverse_proxy_handler-Ends :
      (p : NewProxy) (c : Option Cleanup) (r : HandlerRegistry)
      → I r
      → Ends (After I) (reverse_proxy_handler p c >>= λ b. returns (b, r))
  unfolding reverse_proxy_handler
  reverse_proxy_handler-Ends crashed c r i = tt
  reverse_proxy_handler-Ends (failed e) c r i = i
  reverse_proxy_handler-Ends (built n service) c r i = i

  make_redirect_handler-Ends :
      (p : RedirectConfig) (c : Option Cleanup) (r : HandlerRegistry)
      → I r
      → Ends (After I) (make_redirect_handler p c >>= λ b. returns (b, r))
  unfolding make_redirect_handler
  make_redirect_handler-Ends null_config c r i = tt
  make_redirect_handler-Ends (malformed e) c r i = i
  make_redirect_handler-Ends (parsed url code) c r i = i

  module _ (env : Env) where
    builtin_handler-Ends :
        (name : String) (cfg : HandlerConfig) (c : Option Cleanup) (r : HandlerRegistry)
        → I r
        → Ends (After I) (builtin_handler env by_name name cfg c r)
    unfolding builtin_handler
    builtin_handler-Ends name cfg c r i = elim (Bool-cases (cfg.kind == "ReverseProxy")) [
      | inl e ↦ rw e (reverse_proxy_handler-Ends (env.new_proxy name cfg.config) c r i)
      | inr e ↦ rw e (elim (Bool-cases (cfg.kind == "Redirect")) [
        | inl e' ↦ rw e' (make_redirect_handler-Ends (env.redirect_config cfg.config) c r i)
        | inr e' ↦ rw e' (registered_handler-Ends name cfg (lookup cfg.kind r.handler_types) c r i)
      ])
    ]

    pub handler_for_config-Ends :
        (name : String) (cfg : HandlerConfig) (r : HandlerRegistry)
        → I r
        → Ends (After I) (handler_for_config env by_name name cfg r)
    unfolding handler_for_config
    handler_for_config-Ends name cfg r i = elim (Bool-cases (is_empty cfg.plugin)) [
      | inl e ↦ rw e (builtin_handler-Ends name cfg none r i)
      | inr e ↦ rw e (
          Ends->>= (After I) (After I)
            (handler_from_plugin by_name name cfg (env.load cfg.plugin) r) _
            (handler_from_plugin-Ends name cfg (env.load cfg.plugin) r i)
            λ (b, r') j. elim (Bool-cases (is_some b.err || is_some b.handler)) [
              | inl d ↦ rw d j
              | inr d ↦ rw d (builtin_handler-Ends name cfg b.cleanup r' j)
            ])
    ]
