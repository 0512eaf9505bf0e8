-- ===== src/Proxy/V2/Unpinned.antt =====
-- initVirtualTransport with and without a cache, for settings that pin no requests.
use ozone.Prelude.{
  String, ◌==◌, ◌≡◌, refl, ap, Option, none, some, List, [], ◌∷◌, ◌++◌, true, if◌then◌else◌, nat_eq,
}
use ozone.Prelude.Text.{append}
use ozone.Prelude.Dict.{Dict, insert}
use ozone.Prelude.Outcome.{returns}
use ozone.Prelude.Result.{Result, fails, gives, and_then, and_then-cong}
use ozone.Proxy.Virtual.Build.{
  RrUpstreamConfig, VirtualTransportConfig, RrOption, VirtualLib, rr_options, make_upstreams,
  if_parsed, check_options, parse_urls, parsed_config, rr_config, virtual_of, init_with,
}

module _ {Url Upstream Pins : Type 0} (lib : VirtualLib Url Upstream Pins) where
  -- No requests are pinned by these settings.
  abbrev pub IsUnpinned : RrUpstreamConfig → Type 0
  IsUnpinned rr = nat_eq rr.backend_pin 0 ≡ true

  -- Whatever the settings of the upstreams are, they pin no requests.
  abbrev pub AllUnpinned : VirtualTransportConfig → Type 0
  AllUnpinned cfg =
      (parsed : Option RrUpstreamConfig) (rr : RrUpstreamConfig) (uri : Option Url)
      → parsed_config Url Upstream Pins lib cfg.config ≡ gives parsed
      → rr_config Url Upstream Pins lib cfg parsed ≡ gives (rr, uri)
      → IsUnpinned rr

  -- No configuration of the text pins requests.
  abbrev pub Unpinned : Option String → Type 0
  Unpinned none = Unit
  Unpinned (some js) =
      (cfg : VirtualTransportConfig) → lib.parse js ≡ gives (some cfg) → AllUnpinned cfg

module _ {Url Upstream Pins : Type 0} (lib : VirtualLib Url Upstream Pins) (cc : Option Pins) where
  rr_options-IsUnpinned :
      (rr : RrUpstreamConfig) (uri : Option Url) (name : String) (urls : List Url)
      → IsUnpinned lib rr
      → rr_options Url Upstream Pins lib cc rr uri name urls
        ≡ rr_options Url Upstream Pins lib none rr uri name urls
  unfolding rr_options
  rr_options-IsUnpinned rr uri name urls u = rw u refl

  make_upstreams-IsUnpinned :
      (rr : RrUpstreamConfig) (uri : Option Url) (m : Dict (List String)) (ups : Dict Upstream)
      (sv : List (RrOption Url Upstream Pins))
      → IsUnpinned lib rr
      → make_upstreams Url Upstream Pins lib cc rr uri m ups sv
        ≡ make_upstreams Url Upstream Pins lib none rr uri m ups sv
  unfolding make_upstreams
  make_upstreams-IsUnpinned rr uri [] ups sv u = refl
  make_upstreams-IsUnpinned rr uri ((name, hosts) ∷ m) ups sv u =
      let checks = check_options Url Upstream Pins lib rr.health_check uri in
      and_then-cong (parse_urls Url Upstream Pins lib hosts) λ urls p.
        rw (rr_options-IsUnpinned rr uri name urls u) (
          and_then-cong (lib.new_upstream (rr_options Url Upstream Pins lib none rr uri name urls))
            λ up q. make_upstreams-IsUnpinned rr uri m (insert name up ups) (sv ++ checks) u)

  virtual_of-AllUnpinned :
      (cfg : VirtualTransportConfig)
      → AllUnpinned lib cfg
      → virtual_of Url Upstream Pins lib cc cfg ≡ virtual_of Url Upstream Pins lib none cfg
  unfolding virtual_of
  virtual_of-AllUnpinned cfg u =
      ap
        (λ m.
          if cfg.kind == "RoundRobin" then m else fails (append "Unknown upstream type: " cfg.kind))
        (and_then-cong (parsed_config Url Upstream Pins lib cfg.config) λ parsed p.
          and_then-cong (rr_config Url Upstream Pins lib cfg parsed) λ (rr, uri) q.
            ap
              (λ m. and_then m λ (ups, services).
                gives (record { upstreams = ups; retries = cfg.retries; services = services }))
              (make_upstreams-IsUnpinned rr uri cfg.upstreams [] [] (u parsed rr uri p q)))

  if_parsed-Unpinned :
      (r : Result (Option VirtualTransportConfig))
      → ((cfg : VirtualTransportConfig) → r ≡ gives (some cfg) → AllUnpinned lib cfg)
      → if_parsed Url Upstream Pins lib cc r ≡ if_parsed Url Upstream Pins lib none r
  unfolding virtual_of
  if_parsed-Unpinned (fails e) u = refl
  if_parsed-Unpinned (gives none) u = refl
  if_parsed-Unpinned (gives (some cfg)) u = ap returns (virtual_of-AllUnpinned cfg (u cfg refl))

  pub init_with-Unpinned :
      (js : Option String)
      → Unpinned lib js
      → init_with Url Upstream Pins lib cc js ≡ init_with Url Upstream Pins lib none js
  unfolding init_with
  init_with-Unpinned none u = refl
  init_with-Unpinned (some js) u = if_parsed-Unpinned (lib.parse js) u
