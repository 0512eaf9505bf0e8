-- ===== src/Handler/Resolve.antt =====
-- handler.go, lines 117 to 223: handlerByName and handlerForConfig. The recursion of handlerByName,
-- through the look-ups of a HandlerConfigureFunc, is on fuel; Termination shows that the number of
-- configured handlers and one more is enough of it.
use ozone.Prelude.{
  ℕ, zero, suc, String, ◌==◌, ◌||◌, Option, none, some, List, [], ◌∷◌, ◌++◌, if◌then◌else◌, is_some,
}
use ozone.Prelude.Lists.{length, any, take}
use ozone.Prelude.Text.{append, is_empty, join}
use ozone.Prelude.Dict.{lookup, insert}
use ozone.Prelude.Outcome.{Outcome, returns, exhausted, ◌>>=◌}
use ozone.RequestMetrics.{metrics_function}
use ozone.Handler.Registry.{
  Handler, audited, Cleanup, HandlerConfig, HandlerRegistry, Env, Answer, Built, Call,
  handler_from_plugin, reverse_proxy_handler, make_redirect_handler, registered_handler,
}

-- wrapAuditHandler with no access log: the wrapped handler is registered for the access log
-- command, and there is no cleanup.
unfoldable pub wrap_audit_handler_unlogged :
    String → Handler → String → HandlerRegistry → Handler × HandlerRegistry
wrap_audit_handler_unlogged name h metrics r =
    let oh = audited h (metrics_function name metrics) in
    (oh, record r { log_handlers = insert "" oh r.log_handlers })

-- The handler that is stored and returned: wrapped, if the configuration asks for metrics.
unfoldable pub with_metrics :
    String → HandlerConfig → Handler → HandlerRegistry → Handler × HandlerRegistry
unfolding wrap_audit_handler_unlogged
with_metrics name cfg h r =
    if is_empty cfg.metrics then (h, r) else wrap_audit_handler_unlogged name h cfg.metrics r

abbrev pub to_list {ℓ} : {A : Type ℓ} → Option A → List A
to_list none = []
to_list (some a) = a ∷ []

-- The end of handlerByName, after handlerForConfig: nothing is kept of a failure.
unfoldable pub keep_handler :
    String → HandlerConfig → Option Handler → HandlerRegistry → Answer × HandlerRegistry
unfolding with_metrics
keep_handler name cfg none r = (record { handler = none; err = none }, r)
keep_handler name cfg (some h) r =
    let (oh, r') = with_metrics name cfg h r in
    (
      record { handler = some oh; err = none },
      record r' { resolution_map = insert name oh r'.resolution_map },
    )

unfoldable pub store : String → HandlerConfig → Built → HandlerRegistry → Answer × HandlerRegistry
unfolding keep_handler
store name cfg b r = elim b.err [
  | some e ↦ (record { handler = b.handler; err = some e }, r)
  | none ↦
      let (a, r') = keep_handler name cfg b.handler r in
      (
        a,
        record r' {
          services = r'.services ++ to_list b.service;
          cleanups = r'.cleanups ++ to_list b.cleanup;
        },
      )
]

-- `r.resolutionPath = append(r.resolutionPath, name)` and the deferred
-- `r.resolutionPath = r.resolutionPath[:pathlen]`
unfoldable pub push_path : String → HandlerRegistry → HandlerRegistry
push_path name r = record r { resolution_path = r.resolution_path ++ name ∷ [] }

unfoldable pub truncate_path : ℕ → HandlerRegistry → HandlerRegistry
truncate_path n r = record r { resolution_path = take n r.resolution_path }

abbrev pub cycle_error : String → List String → String
cycle_error name path =
    append "Handler cycle detected for " (append name (append ": [" (append (join path " ") "]")))

-- The configuration is missing: the static handler of that name, or an error.
unfoldable pub static_handler : String → Option Handler → Answer
static_handler name none = record {
  handler = none;
  err = some (append "No such handler config: " name);
}
static_handler name (some h) = record { handler = some h; err = none }

module _ (env : Env) where
  -- The switch of handlerForConfig.
  unfoldable pub builtin_handler :
      Call
      → String
      → HandlerConfig
      → Option Cleanup
      → HandlerRegistry
      → Outcome (Built × HandlerRegistry)
  unfolding reverse_proxy_handler make_redirect_handler registered_handler
  builtin_handler by_name name cfg c r =
      if cfg.kind == "ReverseProxy"
      then (reverse_proxy_handler (env.new_proxy name cfg.config) c >>= λ b. returns (b, r))
      else if cfg.kind == "Redirect"
      then (make_redirect_handler (env.redirect_config cfg.config) c >>= λ b. returns (b, r))
      else registered_handler by_name name cfg (lookup cfg.kind r.handler_types) c r

  unfoldable pub handler_for_config :
      Call → String → HandlerConfig → HandlerRegistry → Outcome (Built × HandlerRegistry)
  unfolding builtin_handler handler_from_plugin
  handler_for_config by_name name cfg r =
      if is_empty cfg.plugin
      then builtin_handler by_name name cfg none r
      else (handler_from_plugin by_name name cfg (env.load cfg.plugin) r >>= λ (b, r').
          if is_some b.err || is_some b.handler
          then returns (b, r')
          else builtin_handler by_name name cfg b.cleanup r')

  -- handlerByName, from the push on the resolution path on.
  unfoldable pub configure :
      Call → String → HandlerConfig → HandlerRegistry → Outcome (Answer × HandlerRegistry)
  unfolding handler_for_config store push_path truncate_path
  configure by_name name cfg r =
      handler_for_config by_name name cfg (push_path name r) >>= λ (b, r').
      let (a, r'') = store name cfg b r' in
      returns (a, truncate_path (length r.resolution_path) r'')

  -- One call of handlerByName, whose recursive calls are `by_name`.
  unfoldable pub resolve : Call → Call
  unfolding configure static_handler
  resolve by_name name r = elim (lookup name r.resolution_map) [
    | some h ↦ returns (record { handler = some h; err = none }, r)
    | none ↦ elim (lookup name r.cfg) [
      | none ↦ returns (static_handler name (lookup name r.static_handlers), r)
      | some cfg ↦
          if any (λ n. n == name) r.resolution_path
          then returns
              (record { handler = none; err = some (cycle_error name r.resolution_path) }, r)
          else configure by_name name cfg r
    ]
  ]

  unfoldable pub handler_by_name : ℕ → Call
  unfolding resolve
  handler_by_name zero name r = exhausted
  handler_by_name (suc fuel) name r = resolve (handler_by_name fuel) name r
