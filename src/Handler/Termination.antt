-- ===== src/Handler/Termination.antt =====
-- handlerByName ends: what is configured and not on the resolution path gets fewer with each
-- nested call, so the number of configured handlers and one more bounds the depth of the recursion.
use ozone.Prelude.{
  ℕ, zero, suc, ◌≤◌, ◌<◌, String, ◌==◌, eq_iff, Bool, true, false, not, ◌||◌, ◌≡◌, refl, ap, inl,
  inr, Bool-cases, Option-cases, List, [], ◌∷◌, ◌++◌, arith, is_some, String-cases,
}
use ozone.Prelude.Lists.{any, any-append, count, take-append}
use ozone.Prelude.Dict.{Dict, lookup, keys}
use ozone.Prelude.Outcome.{Ends, Ends->>=}
use ozone.Handler.Registry.{
  HandlerConfig, HandlerRegistry, Env, Built, Call, register_http_handler_type,
}
use ozone.Handler.Resolve.{push_path, truncate_path, store, configure, resolve, handler_by_name}
use ozone.Handler.Walk.{After, handler_for_config-Ends}

abbrev pub on_path : String → List String → Bool
on_path name p = any (λ n. n == name) p

-- The names that are configured and not on the path.
abbrev pub unresolved : Dict HandlerConfig → List String → ℕ
unresolved c p = count (λ k. not (on_path k p)) (keys c)

count-le :
    (p q : String → Bool) (xs : List String)
    → ((x : String) → q x ≡ true → p x ≡ true)
    → count q xs ≤ count p xs
count-le p q [] h = omega arith
count-le p q (x ∷ xs) h = ground (arith, h x, count-le p q xs h)

on_path-push :
    (k name : String) (p : List String)
    → on_path k (p ++ name ∷ []) ≡ (on_path k p || (name == k || false))
on_path-push k name p = any-append (λ n. n == k) p (name ∷ [])

fewer-le :
    (name : String) (p : List String) (xs : List String)
    → count (λ k. not (on_path k (p ++ name ∷ []))) xs ≤ count (λ k. not (on_path k p)) xs
fewer-le name p xs =
    count-le (λ k. not (on_path k p)) (λ k. not (on_path k (p ++ name ∷ []))) xs
      λ x h. ground (arith, on_path-push x name p)

pub unresolved-push :
    (name : String) (p : List String) (c : Dict HandlerConfig)
    → is_some (lookup name c) ≡ true
    → on_path name p ≡ false
    → unresolved c (p ++ name ∷ []) < unresolved c p
unfolding lookup
unresolved-push name p [] h e = cc
unresolved-push name p ((k, v) ∷ c) h e = elim (String-cases k name) [
  | inl same ↦
      let gone : on_path k (p ++ name ∷ []) ≡ true =
        ground (arith, on_path-push k name p, eq_iff name k) in
      let here : on_path k p ≡ false = rw same e in ground (arith, fewer-le name p (keys c))
  | inr other ↦ ground (arith, unresolved-push name p c (rw other at h) e, on_path-push k name p)
]

-- The configuration and the resolution path of the registry.
pub record IsAt (c : Dict HandlerConfig) (p : List String) (r : HandlerRegistry) : Type 0 where
  pub configured : r.cfg ≡ c
  pub path : r.resolution_path ≡ p

store-IsAt :
    {c : Dict HandlerConfig} {p : List String} (name : String) (cfg : HandlerConfig) (b : Built)
    (r : HandlerRegistry)
    → IsAt c p r
    → IsAt c p (store name cfg b r).1
unfolding store
store-IsAt name cfg b r i = ground arith

module _ (env : Env) (c : Dict HandlerConfig) where
  pub configure-Ends :
      (by_name : Call) (p : List String) (name : String) (cfg : HandlerConfig) (r : HandlerRegistry)
      → ((n : String) (s : HandlerRegistry)
          → IsAt c (p ++ name ∷ []) s
          → Ends (After (IsAt c (p ++ name ∷ []))) (by_name n s))
      → IsAt c p r
      → Ends (After (IsAt c p)) (configure env by_name name cfg r)
  unfolding configure push_path truncate_path
  configure-Ends by_name p name cfg r calls i =
      Ends->>= (After (IsAt c (p ++ name ∷ []))) (After (IsAt c p)) _ _
        (handler_for_config-Ends (IsAt c (p ++ name ∷ [])) by_name calls
          (λ n f s j.
            unfold register_http_handler_type in
            record { configured = j.configured; path = j.path })
          env name cfg (push_path name r)
          (record { configured = i.configured; path = ap (λ q. q ++ name ∷ []) i.path }))
        λ (b, r') j.
          let k = store-IsAt name cfg b r' j in
          record {
            configured = k.configured;
            path = rw (k.path, i.path) (take-append p (name ∷ []));
          }

  -- Enough fuel: the call ends, with the configuration and the resolution path as they were.
  pub handler_by_name-Ends :
      (fuel : ℕ) (p : List String) (name : String) (r : HandlerRegistry)
      → unresolved c p < fuel
      → IsAt c p r
      → Ends (After (IsAt c p)) (handler_by_name env fuel name r)
  unfolding handler_by_name resolve
  handler_by_name-Ends zero p name r h i = elim h [ ]
  handler_by_name-Ends (suc fuel) p name r h i =
      elim (Option-cases (lookup name r.resolution_map)) [
        | inr (done, e) ↦ rw (e, resolve) i
        | inl e ↦
            rw (e, resolve)
              (elim (Option-cases (lookup name r.cfg)) [
                | inl e' ↦ rw (e', resolve) i
                | inr (cfg, e') ↦
                    rw (e', resolve)
                      (elim (Bool-cases (on_path name r.resolution_path)) [
                        | inl on ↦ rw on i
                        | inr off ↦ rw off (
                            configure-Ends (handler_by_name env fuel) p name cfg r
                              (λ n s j.
                                handler_by_name-Ends fuel (p ++ name ∷ []) n s
                                  (omega (
                                    arith,
                                    unresolved-push name p c (rw (← i.configured, e') refl)
                                        (rw (← i.path) off),
                                  ))
                                  j)
                              i)
                      ])
              ])
      ]

-- A call of handlerByName ends, by a return or a panic, if the fuel is above the number of the
-- configured names that are not on the resolution path. Where it returns, the configuration and the
-- resolution path are as before the call.
pub handler_by_name_terminates :
    (env : Env) (fuel : ℕ) (name : String) (r : HandlerRegistry)
    → unresolved r.cfg r.resolution_path < fuel
    → Ends (After (IsAt r.cfg r.resolution_path)) (handler_by_name env fuel name r)
handler_by_name_terminates env fuel name r h =
    handler_by_name-Ends env r.cfg fuel r.resolution_path name r h
      (record { configured = refl; path = refl })
