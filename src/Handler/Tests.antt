-- ===== src/Handler/Tests.antt =====
-- Runs of the resolution on small configurations, and its theorems at them.
use ozone.Prelude.{String, false, ◌≡◌, refl, none, some, [], ◌∷◌, arith}
use ozone.Prelude.Text.{join}
use ozone.Prelude.Dict.{Dict, lookup, insert}
use ozone.Prelude.Outcome.{returns, Ends}
use ozone.Handler.Registry.{
  Handler, supplied, redirect, mux, route, no_route, finish, ask, HandlerConfigureFunc,
  HandlerConfig, HandlerRegistry, Env, Answer, refused, built, parsed, new_handler_registry,
}
use ozone.Handler.Resolve.{handler_by_name}
use ozone.Handler.Walk.{After}
use ozone.Handler.Termination.{IsAt, handler_by_name_terminates}
use ozone.Handler.Once.{handler_by_name_once}
use ozone.Handler.Spec.{HandlerSpec, routes, named, handler_for_spec}

runs : Unit {0}
unfolding handler_by_name handler_for_spec new_handler_registry lookup insert
runs = tt

-- No plugins; every proxy is built, without a service, and every redirect goes to /moved.
abbrev env : Env
env = record {
  load = λ p. refused "no plugins";
  new_proxy = λ name cfg. built 1 false;
  redirect_config = λ cfg. parsed "/moved" 302;
}

abbrev plain : String → HandlerConfig
plain kind = record { kind = kind; plugin = ""; metrics = ""; config = none }

-- A handler type that wraps the handler named "inner", and one that looks itself up.
abbrev wrapper : HandlerConfigureFunc
wrapper name cfg = ask "inner" λ h e. finish h none e

abbrev self : HandlerConfigureFunc
self name cfg = ask name λ h e. finish h none e

abbrev types : Dict HandlerConfigureFunc
types = ("Wrapper", wrapper) ∷ ("Self", self) ∷ []

abbrev statics : Dict Handler
statics = ("NotFound", supplied 404) ∷ []

abbrev start : HandlerRegistry
start = record {
  resolution_map = [];
  cfg = ("outer", plain "Wrapper") ∷ ("inner", plain "Redirect") ∷ ("loop", plain "Self") ∷ [];
  cleanups = [];
  services = [];
  resolution_path = [];
  handler_types = types;
  static_handlers = statics;
  log_handlers = [];
}

abbrev both : HandlerRegistry
both = record start {
  resolution_map = ("inner", redirect "/moved" 302) ∷ ("outer", redirect "/moved" 302) ∷ [];
}

abbrev found : Handler → Answer
found h = record { handler = some h; err = none }

new_start : new_handler_registry types statics start.cfg ≡ start
unfolding runs
new_start = refl

outer_found : handler_by_name env 4 "outer" start ≡ returns (found (redirect "/moved" 302), both)
unfolding runs
outer_found = refl

inner_found : handler_by_name env 4 "inner" both ≡ returns (found (redirect "/moved" 302), both)
unfolding runs
inner_found = refl

static_found : handler_by_name env 1 "NotFound" start ≡ returns (found (supplied 404), start)
unfolding runs
static_found = refl

abbrev cycle : Answer
cycle = record { handler = none; err = some "Handler cycle detected for loop: [loop]" }

loop_refused : handler_by_name env 4 "loop" start ≡ returns (cycle, start)
unfolding runs join
loop_refused = refl

abbrev mapping : HandlerSpec
mapping = routes (("/", named "outer") ∷ ("/x", named "NotFound") ∷ [])

mapped :
    handler_for_spec (handler_by_name env 4) "srv" mapping start
    ≡ returns
        (found (mux (route "/x" (supplied 404) (route "/" (redirect "/moved" 302) no_route))), both)
unfolding runs
mapped = refl

handler_by_name_terminates_example :
    Ends (After (IsAt start.cfg [])) (handler_by_name env 4 "outer" start)
handler_by_name_terminates_example = handler_by_name_terminates env 4 "outer" start (omega arith)

handler_by_name_once_example :
    handler_by_name env 1 "outer" both ≡ returns (found (redirect "/moved" 302), both)
unfolding runs
handler_by_name_once_example =
    handler_by_name_once env env 3 4 "outer" "inner" start both both (found (redirect "/moved" 302))
      (found (redirect "/moved" 302)) (plain "Wrapper") (redirect "/moved" 302) refl outer_found
      refl refl (omega arith) inner_found 0
