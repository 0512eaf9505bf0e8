-- ===== src/Handler/Memo.antt =====
-- handlerByName resolves a name once: what it has found is found again, whatever is resolved in
-- between, and a failure leaves nothing behind.
use ozone.Prelude.{
  ℕ, zero, suc, ◌<◌, String, false, ◌≡◌, refl, ap, inl, inr, Bool-cases, Option-cases, none, List,
  [], ◌∷◌, ◌++◌, arith,
}
use ozone.Prelude.Dict.{Dict, lookup}
use ozone.Prelude.Outcome.{Ends, Ends->>=, Ends-×, Ends-map}
use ozone.Handler.Registry.{
  HandlerConfig, HandlerConfigureFunc, HandlerRegistry, Env, Built, Call,
  register_http_handler_type,
}
use ozone.Handler.Resolve.{
  push_path, store, handler_for_config, configure, resolve, handler_by_name,
}
use ozone.Handler.Walk.{After, handler_for_config-Ends}
use ozone.Handler.Termination.{on_path, unresolved, unresolved-push, IsAt, handler_by_name-Ends}
use ozone.Handler.Keeps.{Keeps, Keeps-refl, Keeps-trans, Below, finish-Keeps}

-- What is known of the registry below `name`: where it is, and what it keeps.
pub record IsBelow (c : Dict HandlerConfig) (p : List String) (name : String)
    (r s : HandlerRegistry) : Type 0 where
  pub place : IsAt c (p ++ name ∷ []) s
  pub keeps : Below name r s

store-path :
    (name : String) (cfg : HandlerConfig) (b : Built) (s : HandlerRegistry)
    → (store name cfg b s).1.resolution_path ≡ s.resolution_path
unfolding store
store-path name cfg b s = ground arith

IsBelow-push :
    (c : Dict HandlerConfig) (p : List String) (name : String) (r : HandlerRegistry)
    → IsAt c p r
    → IsBelow c p name r (push_path name r)
unfolding push_path
IsBelow-push c p name r i = record {
  place = record { configured = i.configured; path = ap (λ q. q ++ name ∷ []) i.path };
  keeps = Keeps-refl (push_path name r);
}

register-IsBelow :
    (c : Dict HandlerConfig) (p : List String) (name n : String) (f : HandlerConfigureFunc)
    (r s : HandlerRegistry)
    → IsBelow c p name r s
    → IsBelow c p name r (register_http_handler_type n f s)
unfolding register_http_handler_type
register-IsBelow c p name n f r s j = record {
  place = record { configured = j.place.configured; path = j.place.path };
  keeps = record {
    path = j.keeps.path;
    resolved = j.keeps.resolved;
    pending = j.keeps.pending;
    services = j.keeps.services;
    cleanups = j.keeps.cleanups;
  };
}

module _ (env : Env) (c : Dict HandlerConfig) where
  pub handler_for_config-IsBelow :
      (by_name : Call) (p : List String) (name : String) (cfg : HandlerConfig) (r : HandlerRegistry)
      → ((n : String) (s : HandlerRegistry)
          → IsAt c (p ++ name ∷ []) s
          → Ends (λ (a, t). IsAt c (p ++ name ∷ []) t × Keeps s t) (by_name n s))
      → IsAt c p r
      → Ends
          (After (IsBelow c p name r))
          (handler_for_config env by_name name cfg (push_path name r))
  handler_for_config-IsBelow by_name p name cfg r calls i =
      handler_for_config-Ends (IsBelow c p name r) by_name
        (λ n s j.
          Ends-map _ _ (by_name n s)
            (λ (a, t) k. record { place = k.0; keeps = Keeps-trans j.keeps k.1 })
            (calls n s j.place))
        (λ n f s j. register-IsBelow c p name n f r s j) env name cfg (push_path name r)
        (IsBelow-push c p name r i)

  configure-Keeps :
      (by_name : Call) (p : List String) (name : String) (cfg : HandlerConfig) (r : HandlerRegistry)
      → ((n : String) (s : HandlerRegistry)
          → IsAt c (p ++ name ∷ []) s
          → Ends (λ (a, t). IsAt c (p ++ name ∷ []) t × Keeps s t) (by_name n s))
      → IsAt c p r
      → lookup name r.resolution_map ≡ none
      → on_path name r.resolution_path ≡ false
      → Ends (After (Keeps r)) (configure env by_name name cfg r)
  unfolding configure
  configure-Keeps by_name p name cfg r calls i fresh off =
      Ends->>= (After (IsBelow c p name r)) (After (Keeps r)) _ _
        (handler_for_config-IsBelow by_name p name cfg r calls i)
        λ (b, s) j. finish-Keeps name r s fresh off j.keeps cfg b (store-path name cfg b s)

  pub handler_by_name-Keeps :
      (fuel : ℕ) (p : List String) (name : String) (r : HandlerRegistry)
      → unresolved c p < fuel
      → IsAt c p r
      → Ends (After (Keeps r)) (handler_by_name env fuel name r)
  unfolding handler_by_name resolve
  handler_by_name-Keeps zero p name r h i = elim h [ ]
  handler_by_name-Keeps (suc fuel) p name r h i =
      elim (Option-cases (lookup name r.resolution_map)) [
        | inr (done, e) ↦ rw (e, resolve) (Keeps-refl r)
        | inl e ↦
            rw (e, resolve)
              (elim (Option-cases (lookup name r.cfg)) [
                | inl e' ↦ rw (e', resolve) (Keeps-refl r)
                | inr (cfg, e') ↦
                    rw (e', resolve)
                      (elim (Bool-cases (on_path name r.resolution_path)) [
                        | inl on ↦ rw on (Keeps-refl r)
                        | inr off ↦
                            let less : unresolved c (p ++ name ∷ []) < fuel = omega (
                              arith,
                              unresolved-push name p c (rw (← i.configured, e') refl)
                                  (rw (← i.path) off),
                            ) in
                            rw off (
                              configure-Keeps (handler_by_name env fuel) p name cfg r
                                (λ n s j.
                                  Ends-× _ _ (handler_by_name env fuel n s)
                                    (handler_by_name-Ends env c fuel (p ++ name ∷ []) n s less j)
                                    (handler_by_name-Keeps fuel (p ++ name ∷ []) n s less j))
                                i e off)
                      ])
              ])
      ]

-- A call of handlerByName with enough fuel that returns leaves the resolution path as it was, every
-- handler resolved before resolved to the same value, and the names on the path neither resolved
-- nor changed; the services and the cleanups are those from before, followed by new ones.
pub handler_by_name_monotone :
    (env : Env) (fuel : ℕ) (name : String) (r : HandlerRegistry)
    → unresolved r.cfg r.resolution_path < fuel
    → Ends (After (Keeps r)) (handler_by_name env fuel name r)
handler_by_name_monotone env fuel name r h =
    handler_by_name-Keeps env r.cfg fuel r.resolution_path name r h
      (record { configured = refl; path = refl })
