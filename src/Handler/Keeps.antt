-- ===== src/Handler/Keeps.antt =====
-- What handlerByName keeps of the registry: the handlers that are resolved stay as they are, those
-- on the path are not resolved meanwhile, and services and cleanups are only added.
use ozone.Prelude.{
  String, ◌==◌, true, false, ◌≡◌, refl, sym, ap, ◌∙◌, ◌⊎◌, inl, inr, Option-cases, none, some, List,
  [], ◌∷◌, ◌++◌, arith, String-cases, append-nil, append_assoc,
}
use ozone.Prelude.Lists.{length, any-append, take-append}
use ozone.Prelude.Dict.{lookup, insert, lookup-insert}
use ozone.Handler.Registry.{Handler, HandlerConfig, HandlerRegistry, Built}
use ozone.Handler.Resolve.{push_path, truncate_path, to_list, store, with_metrics}
use ozone.Handler.Termination.{on_path}

-- `s` is a list that begins with `r`.
abbrev pub Extends {ℓ} : {A : Type ℓ} → List A → List A → Type ℓ
Extends {A = A} r s = (more : List A) × (s ≡ r ++ more)

Extends-refl {ℓ} : {A : Type ℓ} (r : List A) → Extends r r
Extends-refl r = ([], sym (append-nil r))

Extends-append {ℓ} : {A : Type ℓ} (r s : List A) (new : List A) → Extends r s → Extends r (s ++ new)
Extends-append r s new (more, e) = (more ++ new, ap (λ t. t ++ new) e ∙ append_assoc r more new)

-- From the registry `r` to the registry `s`.
pub record Keeps (r s : HandlerRegistry) : Type 0 where
  pub path : s.resolution_path ≡ r.resolution_path
  pub resolved :
      (k : String) (h : Handler)
      → lookup k r.resolution_map ≡ some h
      → lookup k s.resolution_map ≡ some h
  pub pending :
      (k : String)
      → on_path k r.resolution_path ≡ true
      → lookup k s.resolution_map ≡ lookup k r.resolution_map
  pub services : Extends r.services s.services
  pub cleanups : Extends r.cleanups s.cleanups

pub Keeps-refl : (r : HandlerRegistry) → Keeps r r
Keeps-refl r = record {
  path = refl;
  resolved = λ k h e. e;
  pending = λ k e. refl;
  services = Extends-refl r.services;
  cleanups = Extends-refl r.cleanups;
}

-- What a call made below `name` keeps, for a registry `r` that has not yet pushed `name`.
abbrev pub Below : String → HandlerRegistry → HandlerRegistry → Type 0
Below name r s = Keeps (push_path name r) s

with_metrics-map :
    (name : String) (cfg : HandlerConfig) (h : Handler) (r : HandlerRegistry)
    → (with_metrics name cfg h r).1.resolution_map ≡ r.resolution_map
unfolding with_metrics
with_metrics-map name cfg h r = ground arith

store-map :
    (name : String) (cfg : HandlerConfig) (b : Built) (r : HandlerRegistry)
    → ((store name cfg b r).1.resolution_map ≡ r.resolution_map)
      ⊎ ((oh : Handler) × ((store name cfg b r).1.resolution_map ≡ insert name oh r.resolution_map))
unfolding store
store-map name cfg b r = elim (Option-cases b.err) [
  | inr (e, q) ↦ inl (ground arith)
  | inl q ↦ elim (Option-cases b.handler) [
    | inl q' ↦ inl (ground arith)
    | inr (h, q') ↦
        inr ((with_metrics name cfg h r).0, ground (arith, with_metrics-map name cfg h r))
  ]
]

store-services :
    (name : String) (cfg : HandlerConfig) (b : Built) (r : HandlerRegistry)
    → Extends r.services (store name cfg b r).1.services
unfolding store with_metrics
store-services name cfg b r = elim (Option-cases b.err) [
  | inr (e, q) ↦ ([], ground (arith, append-nil r.services))
  | inl q ↦ (to_list b.service, ground arith)
]

store-cleanups :
    (name : String) (cfg : HandlerConfig) (b : Built) (r : HandlerRegistry)
    → Extends r.cleanups (store name cfg b r).1.cleanups
unfolding store with_metrics
store-cleanups name cfg b r = elim (Option-cases b.err) [
  | inr (e, q) ↦ ([], ground (arith, append-nil r.cleanups))
  | inl q ↦ (to_list b.cleanup, ground arith)
]

Extends-trans {ℓ} : {A : Type ℓ} (r s t : List A) → Extends r s → Extends s t → Extends r t
Extends-trans r s t e (more, p) = rw p (Extends-append r s more e)

pub Keeps-trans : {r s t : HandlerRegistry} → Keeps r s → Keeps s t → Keeps r t
Keeps-trans {r} {s} {t} k l = record {
  path = l.path ∙ k.path;
  resolved = λ n h e. l.resolved n h (k.resolved n h e);
  pending = λ n e. l.pending n (rw k.path e) ∙ k.pending n e;
  services = Extends-trans r.services s.services t.services k.services l.services;
  cleanups = Extends-trans r.cleanups s.cleanups t.cleanups k.cleanups l.cleanups;
}

on_path-push :
    (k name : String) (p : List String) → on_path k p ≡ true → on_path k (p ++ name ∷ []) ≡ true
on_path-push k name p e = ground (arith, any-append (λ n. n == k) p (name ∷ []))

module _ (name : String) (r s : HandlerRegistry) (fresh : lookup name r.resolution_map ≡ none)
    (off : on_path name r.resolution_path ≡ false) (k : Below name r s) where
  -- The end of handlerByName keeps the registry, seen from before the push.
  resolved-insert :
      (oh : Handler) (n : String) (h : Handler)
      → lookup n r.resolution_map ≡ some h
      → lookup n (insert name oh s.resolution_map) ≡ some h
  unfolding push_path
  resolved-insert oh n h e = elim (String-cases name n) [
    | inl same ↦ cc (fresh, ap (λ t. lookup t r.resolution_map) same, e)
    | inr other ↦ rw (lookup-insert, other) (k.resolved n h e)
  ]

  pending-insert :
      (oh : Handler) (n : String)
      → on_path n r.resolution_path ≡ true
      → lookup n (insert name oh s.resolution_map) ≡ lookup n r.resolution_map
  unfolding push_path
  pending-insert oh n e = elim (String-cases name n) [
    | inl same ↦ cc (off, ap (λ t. on_path t r.resolution_path) same, e)
    | inr other ↦ rw (lookup-insert, other) (k.pending n (on_path-push n name r.resolution_path e))
  ]

  pub finish-Keeps :
      (cfg : HandlerConfig) (b : Built)
      → (store name cfg b s).1.resolution_path ≡ s.resolution_path
      → Keeps r (truncate_path (length r.resolution_path) (store name cfg b s).1)
  unfolding push_path truncate_path
  finish-Keeps cfg b same = record {
    path = rw (same, k.path) (take-append r.resolution_path (name ∷ []));
    resolved = λ n h e. elim (store-map name cfg b s) [
      | inl m ↦ rw m (k.resolved n h e)
      | inr (oh, m) ↦ rw m (resolved-insert oh n h e)
    ];
    pending = λ n e. elim (store-map name cfg b s) [
      | inl m ↦ rw m (k.pending n (on_path-push n name r.resolution_path e))
      | inr (oh, m) ↦ rw m (pending-insert oh n e)
    ];
    services = Extends-trans _ _ _ k.services (store-services name cfg b s);
    cleanups = Extends-trans _ _ _ k.cleanups (store-cleanups name cfg b s);
  }
