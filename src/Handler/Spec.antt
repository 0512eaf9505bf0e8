-- ===== src/Handler/Spec.antt =====
-- handler.go, lines 73 to 113: HandlerForSpec, which makes the handler of a server: one by name, or
-- a serve mux of handlers by name.
use ozone.Prelude.{
  ℕ, ◌<◌, String, ◌==◌, ◌||◌, refl, inl, inr, Bool-cases, Option-cases, Option, none, some, List,
  [], ◌∷◌, is_some, if◌then◌else◌,
}
use ozone.Prelude.Text.{append, is_empty}
use ozone.Prelude.Outcome.{Outcome, returns, panics, ◌>>=◌, Ends, Ends->>=}
use ozone.Handler.Registry.{
  Handler, mux, Routes, no_route, route, HandlerRegistry, Env, Answer, Call,
}
use ozone.Handler.Resolve.{handler_by_name}
use ozone.Handler.Walk.{After}
use ozone.Handler.Termination.{unresolved, IsAt, handler_by_name-Ends}

-- The JSON value of a server's handler: a name, an object, or something else. The members of the
-- object are names, or values that are printed in the error.
pub data RouteSpec : Type 0 where
  named : String → RouteSpec
  other : String → RouteSpec

pub data HandlerSpec : Type 0 where
  single : String → HandlerSpec
  routes : List (String × RouteSpec) → HandlerSpec
  invalid : HandlerSpec

unfoldable pub route_of : String → Routes → Option Handler
route_of path no_route = none
route_of path (route p h m) = if p == path then some h else route_of path m

-- ServeMux.Handle panics at an empty pattern, at no handler, and at a pattern that is taken.
unfoldable pub handle : String → Option Handler → Routes → Outcome Routes
unfolding route_of
handle path none m = panics
handle path (some h) m =
    if is_empty path || is_some (route_of path m) then panics else returns (route path h m)

abbrev failure : String → Answer
failure e = record { handler = none; err = some e }

abbrev handler_error : String → String → Answer
handler_error name e = failure (append "Handler(" (append name (append "): " e)))

-- The loop over the paths of the mux.
unfoldable pub mux_routes :
    Call
    → String
    → List (String × RouteSpec)
    → Routes
    → HandlerRegistry
    → Outcome (Answer × HandlerRegistry)
unfolding handle
mux_routes by_name srv [] m r = returns (record { handler = some (mux m); err = none }, r)
mux_routes by_name srv ((path, other v) ∷ specs) m r = returns (
  failure (append "Handlername must be string for service " (append srv (append ", was: " v))),
  r,
)
mux_routes by_name srv ((path, named name) ∷ specs) m r = by_name name r >>= λ (a, r'). elim a.err [
  | some e ↦ returns (handler_error name e, r')
  | none ↦ handle path a.handler m >>= λ m'. mux_routes by_name srv specs m' r'
]

-- The case of a single name: an error gets the name in front.
unfoldable pub single_handler : Call → String → HandlerRegistry → Outcome (Answer × HandlerRegistry)
single_handler by_name name r = by_name name r >>= λ (a, r'). elim a.err [
  | some e ↦ returns (
    record { handler = a.handler; err = some (append "Handler(" (append name (append "): " e))) },
    r',
  )
  | none ↦ returns (a, r')
]

unfoldable pub handler_for_spec :
    Call → String → HandlerSpec → HandlerRegistry → Outcome (Answer × HandlerRegistry)
unfolding single_handler mux_routes
handler_for_spec by_name srv (single name) r = single_handler by_name name r
handler_for_spec by_name srv (routes specs) r = mux_routes by_name srv specs no_route r
handler_for_spec by_name srv invalid r =
    returns (failure (append "Invalid handler config for service " srv), r)

module _ (I : HandlerRegistry → Type 0) (by_name : Call)
    (calls : (name : String) (r : HandlerRegistry) → I r → Ends (After I) (by_name name r)) where
  mux_routes-Ends :
      (srv : String) (specs : List (String × RouteSpec)) (m : Routes) (r : HandlerRegistry)
      → I r
      → Ends (After I) (mux_routes by_name srv specs m r)
  unfolding mux_routes
  mux_routes-Ends srv [] m r i = i
  mux_routes-Ends srv ((path, other v) ∷ specs) m r i = i
  mux_routes-Ends srv ((path, named name) ∷ specs) m r i =
      Ends->>= (After I) (After I) (by_name name r) _ (calls name r i) λ (a, r') j.
        elim (Option-cases a.err) [
          | inr (e, q) ↦ rw q j
          | inl q ↦ rw q (
              Ends->>= (λ _. Unit {0}) (After I) (handle path a.handler m) _
                (handle-Ends path a.handler m) λ m' _. mux_routes-Ends srv specs m' r' j)
        ]
    where
      handle-Ends :
          (p : String) (h : Option Handler) (n : Routes) → Ends (λ _. Unit {0}) (handle p h n)
      handle-Ends p none n = tt
      handle-Ends p (some h) n = elim (Bool-cases (is_empty p || is_some (route_of p n))) [
        | inl e ↦ rw (e, handle) tt
        | inr e ↦ rw (e, handle) tt
      ]

  handler_for_spec-Ends :
      (srv : String) (spec : HandlerSpec) (r : HandlerRegistry)
      → I r
      → Ends (After I) (handler_for_spec by_name srv spec r)
  unfolding handler_for_spec
  handler_for_spec-Ends srv (single name) r i =
      Ends->>= (After I) (After I) (by_name name r) _ (calls name r i)
        λ (a, r') j. elim (Option-cases a.err) [ inr (e, q) ↦ rw q j | inl q ↦ rw q j ]
  handler_for_spec-Ends srv (routes specs) r i = mux_routes-Ends srv specs no_route r i
  handler_for_spec-Ends srv invalid r i = i

-- HandlerForSpec ends, by a return or a panic, if the fuel is above the number of configured handlers
-- that are not on the path; after a return the configuration and the resolution path are those from
-- before.
pub handler_for_spec_terminates :
    (env : Env) (fuel : ℕ) (srv : String) (spec : HandlerSpec) (r : HandlerRegistry)
    → unresolved r.cfg r.resolution_path < fuel
    → Ends
        (After (IsAt r.cfg r.resolution_path))
        (handler_for_spec (handler_by_name env fuel) srv spec r)
handler_for_spec_terminates env fuel srv spec r h =
    handler_for_spec-Ends (IsAt r.cfg r.resolution_path) (handler_by_name env fuel)
      (λ n s i. handler_by_name-Ends env r.cfg fuel r.resolution_path n s h i) srv spec r
      (record { configured = refl; path = refl })
