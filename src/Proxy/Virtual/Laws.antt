-- ===== src/Proxy/Virtual/Laws.antt =====
-- What a virtual transport that is made has.
use ozone.Prelude.{
  ℕ, zero, suc, String, ◌==◌, eq_iff, ◌≡◌, refl, ap, ◌∙◌, subst, inl, inr, Option, none, some, List,
  [], ◌∷◌, ◌++◌, append-nil, append_assoc, Bool-cases, arith,
}
use ozone.Prelude.Lists.{length}
use ozone.Prelude.Dict.{Dict, lookup, insert, lookup-insert, IsMap}
use ozone.Prelude.Result.{gives, and_then-gives, gives-injective}
use ozone.Proxy.Virtual.Build.{
  RrUpstreamConfig, VirtualTransportConfig, RrOption, VirtualLib, VirtualTransport, parse_urls,
  check_options, rr_options, make_upstreams, parsed_config, rr_config, virtual_of,
}

-- The list, `n` times.
abbrev pub times {ℓ} : {A : Type ℓ} → ℕ → List A → List A
times zero xs = []
times (suc n) xs = xs ++ times n xs

module _ {Url Upstream Pins : Type 0} (lib : VirtualLib Url Upstream Pins)
    (pins : Option Pins) where
  -- The upstream is made of the options of its name, for the URLs of its hosts.
  abbrev pub IsServed : RrUpstreamConfig → Option Url → String → List String → Upstream → Type 0
  IsServed rr uri name hosts up =
      (urls : List Url) × (parse_urls Url Upstream Pins lib hosts ≡ gives urls)
      × (lib.new_upstream (rr_options Url Upstream Pins lib pins rr uri name urls) ≡ gives up)

  module _ (rr : RrUpstreamConfig) (uri : Option Url) where
    checks : List (RrOption Url Upstream Pins)
    checks = check_options Url Upstream Pins lib rr.health_check uri

    -- One round of the loop.
    round_lem :
        (name : String) (hosts : List String) (rest : Dict (List String)) (ups ups' : Dict Upstream)
        (sv sv' : List (RrOption Url Upstream Pins))
        → make_upstreams Url Upstream Pins lib pins rr uri ((name, hosts) ∷ rest) ups sv
          ≡ gives (ups', sv')
        → (up : Upstream) × IsServed rr uri name hosts up
          × (make_upstreams Url Upstream Pins lib pins rr uri rest
                (insert name up ups)
                (sv ++ checks)
              ≡ gives (ups', sv'))
    unfolding make_upstreams checks
    round_lem name hosts rest ups ups' sv sv' e =
        let (urls, p, e1) = and_then-gives (parse_urls Url Upstream Pins lib hosts) _ e in
        let (up, q, e2) =
          and_then-gives (lib.new_upstream (rr_options Url Upstream Pins lib pins rr uri name urls))
            _ e1 in
        (up, (urls, p, q), e2)

    others_stay :
        (m : Dict (List String)) (ups ups' : Dict Upstream)
        (sv sv' : List (RrOption Url Upstream Pins)) (name : String)
        → make_upstreams Url Upstream Pins lib pins rr uri m ups sv ≡ gives (ups', sv')
        → lookup name m ≡ none
        → lookup name ups' ≡ lookup name ups
    unfolding make_upstreams lookup
    others_stay [] ups ups' sv sv' name e n = ground arith
    others_stay ((k, hosts) ∷ m) ups ups' sv sv' name e n =
        let (up, served, e') = round_lem k hosts m ups ups' sv sv' e in
        ground (
          arith,
          others_stay m (insert k up ups) ups' (sv ++ checks) sv' name e',
          lookup-insert k name up ups,
        )

    each-IsServed :
        (m : Dict (List String)) (ups ups' : Dict Upstream)
        (sv sv' : List (RrOption Url Upstream Pins))
        → make_upstreams Url Upstream Pins lib pins rr uri m ups sv ≡ gives (ups', sv')
        → IsMap m
        → (name : String) (hosts : List String) → lookup name m ≡ some hosts
        → (up : Upstream) × (lookup name ups' ≡ some up) × IsServed rr uri name hosts up
    unfolding lookup
    each-IsServed [] ups ups' sv sv' e d name hosts l = cc
    each-IsServed ((k, v) ∷ m) ups ups' sv sv' e (n, d) name hosts l =
        let (up, served, e') = round_lem k v m ups ups' sv sv' e in
        elim (Bool-cases (k == name)) [
          | inl same ↦
              let key : k ≡ name = (eq_iff k name).0 same in
              let value : v ≡ hosts = ground arith in
              (
                up,
                ground (
                  arith,
                  others_stay m (insert k up ups) ups' (sv ++ checks) sv' name e',
                  lookup-insert k name up ups,
                  ap (λ s. lookup s m) key,
                ),
                subst (λ h. IsServed rr uri name h up) value
                    (subst (λ s. IsServed rr uri s v up) key served),
              )
          | inr other ↦
              each-IsServed m (insert k up ups) ups' (sv ++ checks) sv' e' d name hosts
                (ground arith)
        ]

    services_lem :
        (m : Dict (List String)) (ups ups' : Dict Upstream)
        (sv sv' : List (RrOption Url Upstream Pins))
        → make_upstreams Url Upstream Pins lib pins rr uri m ups sv ≡ gives (ups', sv')
        → sv' ≡ sv ++ times (length m) checks
    unfolding make_upstreams
    services_lem [] ups ups' sv sv' e = rw append-nil (cc)
    services_lem ((k, v) ∷ m) ups ups' sv sv' e =
        let (up, served, e') = round_lem k v m ups ups' sv sv' e in
        services_lem m (insert k up ups) ups' (sv ++ checks) sv' e'
        ∙ append_assoc sv checks (times (length m) checks)

  -- The transport has an upstream for each of the configuration, made of its URLs in their order
  -- and of the settings, and a health check for each, if there are to be any.
  abbrev pub IsBuilt : VirtualTransportConfig → VirtualTransport Url Upstream Pins → Type 0
  IsBuilt cfg vt =
      (parsed : Option RrUpstreamConfig) × (rr : RrUpstreamConfig) × (uri : Option Url)
      × (parsed_config Url Upstream Pins lib cfg.config ≡ gives parsed)
      × (rr_config Url Upstream Pins lib cfg parsed ≡ gives (rr, uri))
      × ((name : String) (hosts : List String)
          → lookup name cfg.upstreams ≡ some hosts
          → (up : Upstream) × (lookup name vt.upstreams ≡ some up) × IsServed rr uri name hosts up)
      × ((name : String) → lookup name cfg.upstreams ≡ none → lookup name vt.upstreams ≡ none)
      × (vt.services
          ≡ times (length cfg.upstreams) (check_options Url Upstream Pins lib rr.health_check uri))
      × (vt.retries ≡ cfg.retries)

  -- A transport that initVirtualTransport makes is of the type RoundRobin, and has, for settings of
  -- the configuration or of the old one if there is none: under each name an upstream of the URLs
  -- that are configured there, in their order, under no other name one, one service for each
  -- upstream if the health checks are on, and none else, and the configured number of retries.
  pub virtual_of-IsBuilt :
      (cfg : VirtualTransportConfig) (vt : VirtualTransport Url Upstream Pins)
      → IsMap cfg.upstreams
      → virtual_of Url Upstream Pins lib pins cfg ≡ gives vt
      → (cfg.kind ≡ "RoundRobin") × IsBuilt cfg vt
  unfolding virtual_of checks lookup
  virtual_of-IsBuilt cfg vt distinct e = elim (Bool-cases (cfg.kind == "RoundRobin")) [
    | inr other ↦ let failed = rw other at e in cc
    | inl kind ↦
        let (parsed, p, e1) =
          and_then-gives (parsed_config Url Upstream Pins lib cfg.config) _ (rw kind at e) in
        let ((rr, uri), q, e2) = and_then-gives (rr_config Url Upstream Pins lib cfg parsed) _ e1 in
        let ((ups, services), m, e3) =
          and_then-gives (make_upstreams Url Upstream Pins lib pins rr uri cfg.upstreams [] []) _
            e2 in
        let made : record { upstreams = ups; retries = cfg.retries; services = services } ≡ vt =
          gives-injective e3 in
        (
          (eq_iff cfg.kind "RoundRobin").0 kind,
          subst (IsBuilt cfg) made (
            parsed,
            rr,
            uri,
            p,
            q,
            each-IsServed rr uri cfg.upstreams [] ups [] services m distinct,
            λ name l. others_stay rr uri cfg.upstreams [] ups [] services name m l,
            services_lem rr uri cfg.upstreams [] ups [] services m,
            refl,
          ),
        )
  ]
