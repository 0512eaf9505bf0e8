-- ===== src/Handler/Once.antt =====
-- A name is resolved once: a later look-up finds the same handler, whatever is resolved in between,
-- and a failure leaves nothing behind.
use ozone.Prelude.{
  ℕ, suc, ◌<◌, String, ◌==◌, false, ◌≡◌, refl, sym, ap, ◌∙◌, inl, inr, Bool-cases, Option-cases,
  none, some, [], ◌∷◌, ◌++◌, arith, eq_refl,
}
use ozone.Prelude.Lists.{any-append}
use ozone.Prelude.Dict.{lookup, lookup-insert}
use ozone.Prelude.Outcome.{returns, Ends-×, Ends-returns, >>=-eq-returns}
use ozone.Handler.Registry.{Handler, HandlerConfig, HandlerRegistry, Env, Answer, Built, Call}
use ozone.Handler.Resolve.{
  push_path, truncate_path, keep_handler, store, handler_for_config, configure, resolve,
  handler_by_name, cycle_error,
}
use ozone.Handler.Termination.{on_path, unresolved, unresolved-push, handler_by_name-Ends}
use ozone.Handler.Memo.{handler_for_config-IsBelow, handler_by_name_monotone, handler_by_name-Keeps}

store-stored :
    (name : String) (cfg : HandlerConfig) (b : Built) (r : HandlerRegistry) (h : Handler)
    → (store name cfg b r).0.err ≡ none
    → (store name cfg b r).0.handler ≡ some h
    → lookup name (store name cfg b r).1.resolution_map ≡ some h
unfolding store
store-stored name cfg b r h e f = elim (Option-cases b.err) [
  | inr (x, q) ↦ absurd (ground arith)
  | inl q ↦ elim (Option-cases b.handler) [
    | inl q' ↦ absurd (ground arith)
    | inr (g, q') ↦ rw (q, store, q', keep_handler) (rw (lookup-insert, eq_refl) (ground arith))
  ]
]

store-failed :
    (name : String) (cfg : HandlerConfig) (b : Built) (r : HandlerRegistry) (x : String)
    → (store name cfg b r).0.err ≡ some x
    → (store name cfg b r).1.resolution_map ≡ r.resolution_map
unfolding store
store-failed name cfg b r x e = elim (Option-cases b.err) [
  | inr (y, q) ↦ ground arith
  | inl q ↦ elim (Option-cases b.handler) [
    | inl q' ↦ absurd (ground arith)
    | inr (g, q') ↦ absurd (ground arith)
  ]
]

-- What a returned configuration comes from.
configure-returns :
    (env : Env) (by_name : Call) (name : String) (cfg : HandlerConfig) (r s : HandlerRegistry)
    (a : Answer)
    → configure env by_name name cfg r ≡ returns (a, s)
    → (b : Built) × (t : HandlerRegistry) × (handler_for_config env by_name name cfg
          (push_path name r)
        ≡ returns (b, t))
      × ((store name cfg b t).0 ≡ a)
      × ((store name cfg b t).1.resolution_map ≡ s.resolution_map)
unfolding configure truncate_path
configure-returns env by_name name cfg r s a e =
    let ((b, t), e', f) =
      >>=-eq-returns (handler_for_config env by_name name cfg (push_path name r)) _ e in
    (b, t, e', ground arith, ground arith)

-- The ways in which handlerByName returns.
data Resolution (env : Env) (fuel : ℕ) (name : String) (r s : HandlerRegistry) (a : Answer)
    : Type 0 where
  cached :
      (h : Handler)
      → lookup name r.resolution_map ≡ some h
      → a ≡ record { handler = some h; err = none }
      → s ≡ r
      → Resolution env fuel name r s a
  unconfigured :
      lookup name r.resolution_map ≡ none
      → lookup name r.cfg ≡ none
      → s ≡ r
      → Resolution env fuel name r s a
  cyclic :
      (e : String)
      → lookup name r.resolution_map ≡ none
      → a.handler ≡ none
      → a.err ≡ some e
      → s ≡ r
      → Resolution env fuel name r s a
  configured :
      (cfg : HandlerConfig)
      → lookup name r.resolution_map ≡ none
      → lookup name r.cfg ≡ some cfg
      → on_path name r.resolution_path ≡ false
      → configure env (handler_by_name env fuel) name cfg r ≡ returns (a, s)
      → Resolution env fuel name r s a

resolution :
    (env : Env) (fuel : ℕ) (name : String) (r s : HandlerRegistry) (a : Answer)
    → handler_by_name env (suc fuel) name r ≡ returns (a, s)
    → Resolution env fuel name r s a
unfolding handler_by_name resolve
resolution env fuel name r s a e = elim (Option-cases (lookup name r.resolution_map)) [
  | inr (h, q) ↦ let e' = rw (q, resolve) at e in cached h q (cc e') (cc e')
  | inl q ↦
      let e' = rw (q, resolve) at e in
      elim (Option-cases (lookup name r.cfg)) [
        | inl q' ↦ let e'' = rw (q', resolve) at e' in unconfigured q q' (cc e'')
        | inr (cfg, q') ↦
            let e'' = rw (q', resolve) at e' in
            elim (Bool-cases (on_path name r.resolution_path)) [
              | inl on ↦
                  let e₃ = rw on at e'' in
                  cyclic (cycle_error name r.resolution_path) q (ground arith) (ground arith)
                    (ground arith)
              | inr off ↦ configured cfg q q' off (rw off at e'')
            ]
      ]
]

found_after_configure :
    (env : Env) (fuel : ℕ) (name : String) (r s : HandlerRegistry) (a : Answer)
    (cfg : HandlerConfig) (h : Handler)
    → lookup name r.cfg ≡ some cfg
    → a.err ≡ none
    → a.handler ≡ some h
    → Resolution env fuel name r s a
    → lookup name s.resolution_map ≡ some h
found_after_configure env fuel name r s a cfg h q f g (cached g' e e' same) =
    rw (same, e) (ground arith)
found_after_configure env fuel name r s a cfg h q f g (unconfigured e e' same) = cc (q, e')
found_after_configure env fuel name r s a cfg h q f g (cyclic x e e' e'' same) = cc
found_after_configure env fuel name r s a cfg h q f g (configured cfg' e e' off ret) =
    let (b, t, built, same, kept) =
      configure-returns env (handler_by_name env fuel) name cfg' r s a ret in
    rw (← kept) (
      store-stored name cfg' b t h (ap (λ (x : Answer). x.err) same ∙ f)
        (ap (λ (x : Answer). x.handler) same ∙ g))

absent_after_failure :
    (env : Env) (fuel : ℕ) (name : String) (r s : HandlerRegistry) (a : Answer) (x : String)
    → unresolved r.cfg r.resolution_path < suc fuel
    → a.err ≡ some x
    → Resolution env fuel name r s a
    → lookup name s.resolution_map ≡ lookup name r.resolution_map
unfolding push_path
absent_after_failure env fuel name r s a x h f (cached g e e' same) = rw same
absent_after_failure env fuel name r s a x h f (unconfigured e e' same) = rw same
absent_after_failure env fuel name r s a x h f (cyclic y e e' e'' same) = rw same
absent_after_failure env fuel name r s a x h f (configured cfg e e' off ret) =
    let (b, t, built, same, kept) =
      configure-returns env (handler_by_name env fuel) name cfg r s a ret in
    let less : unresolved r.cfg (r.resolution_path ++ name ∷ []) < fuel =
      omega (arith, unresolved-push name r.resolution_path r.cfg (rw e' refl) off) in
    let below =
      Ends-returns _ _
        (handler_for_config-IsBelow env r.cfg (handler_by_name env fuel) r.resolution_path name cfg
          r
          (λ n q j.
            Ends-× _ _ (handler_by_name env fuel n q)
              (handler_by_name-Ends env r.cfg fuel (r.resolution_path ++ name ∷ []) n q less j)
              (handler_by_name-Keeps env r.cfg fuel (r.resolution_path ++ name ∷ []) n q less j))
          (record { configured = refl; path = refl }))
        built in
    sym (ap (lookup name) kept)
    ∙ ap (lookup name) (store-failed name cfg b t x (ap (λ (y : Answer). y.err) same ∙ f))
    ∙ below.keeps.pending name
        (any-append (λ n. n == name) r.resolution_path (name ∷ []) ∙ ground (arith, eq_refl name))

-- A configured name whose look-up has returned a handler without an error is found again with the
-- same handler and with the registry unchanged, in the environment of then or another, also after
-- a look-up of another name that had enough fuel.
pub handler_by_name_once :
    (env later : Env) (fuel more : ℕ) (name other : String) (r s t : HandlerRegistry) (a b : Answer)
    (cfg : HandlerConfig) (h : Handler)
    → lookup name r.cfg ≡ some cfg
    → handler_by_name env (suc fuel) name r ≡ returns (a, s)
    → a.err ≡ none
    → a.handler ≡ some h
    → unresolved s.cfg s.resolution_path < more
    → handler_by_name env more other s ≡ returns (b, t)
    → (n : ℕ)
    → handler_by_name later (suc n) name t ≡ returns (record { handler = some h; err = none }, t)
unfolding handler_by_name resolve
handler_by_name_once env later fuel more name other r s t a b cfg h q e f g enough e' n =
    let found =
      found_after_configure env fuel name r s a cfg h q f g (resolution env fuel name r s a e) in
    let kept = Ends-returns _ _ (handler_by_name_monotone env more other s enough) e' in
    rw (kept.resolved name h found, resolve)

-- A look-up with enough fuel that returns an error stores no handler: under the name stands what
-- stood there before.
pub handler_by_name_failed :
    (env : Env) (fuel : ℕ) (name : String) (r s : HandlerRegistry) (a : Answer) (x : String)
    → unresolved r.cfg r.resolution_path < suc fuel
    → handler_by_name env (suc fuel) name r ≡ returns (a, s)
    → a.err ≡ some x
    → lookup name s.resolution_map ≡ lookup name r.resolution_map
handler_by_name_failed env fuel name r s a x h e f =
    absent_after_failure env fuel name r s a x h f (resolution env fuel name r s a e)
