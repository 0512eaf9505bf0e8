-- ===== src/Proxy/Virtual/Build.antt =====
-- initVirtualTransport and its configuration. Durations are numbers of nanoseconds.
use ozone.Prelude.{
  ℕ, String, ◌==◌, Bool, not, ◌&&◌, Option, none, some, List, [], ◌∷◌, ◌++◌, if◌then◌else◌, nat_eq,
}
use ozone.Prelude.Text.{append, decimal}
use ozone.Prelude.Dict.{Dict, insert}
use ozone.Prelude.Outcome.{Outcome, returns, panics}
use ozone.Prelude.Result.{Result, fails, gives, and_then}

pub record HealthCheckConfig : Type 0 where
  pub interval : ℕ
  pub uri_path : String
  pub timeout : ℕ
  pub expect : ℕ

pub record RrUpstreamConfig : Type 0 where
  pub max_fails : ℕ
  pub quarantine : ℕ
  pub backend_pin : ℕ
  pub burst_fail_grace : ℕ
  pub routing_key_header : String
  pub health_check : Option HealthCheckConfig

-- VirtualTransportConfig; `config` is its raw JSON, and what follows it is for old configurations.
pub record VirtualTransportConfig : Type 0 where
  pub kind : String
  pub retries : ℕ
  pub upstreams : Dict (List String)
  pub config : Option String
  pub max_fails : ℕ
  pub quarantine : ℕ
  pub backend_pin : ℕ
  pub routing_key_header : String

module _ (Url Upstream Pins : Type 0) where
  -- What the options of an upstream set. The pins go through rrPinCache, if there is a cache, with
  -- the value of a header as the key, and a health check expects a status from the host of each target at one URI.
  pub data RrOption : Type 0 where
    targets : List Url → RrOption
    max_fails : ℕ → RrOption
    quarantine : ℕ → RrOption
    burst_fail_grace : ℕ → RrOption
    event_callback : (upstream : String) → RrOption
    pin_requests_with : (cache : Option Pins) → (ttl : ℕ) → (header : String) → RrOption
    health_check : (interval : ℕ) → (timeout : ℕ) → Option Url → (expect : ℕ) → RrOption

  -- The JSON parser, net/url, and the library of upstreams: its HealthCheck gives an option and a
  -- service, or none.
  pub record VirtualLib : Type 0 where
    pub parse : String → Result (Option VirtualTransportConfig)
    pub parse_rr : String → Result (Option RrUpstreamConfig)
    pub parse_url : String → Result Url
    pub parse_request_uri : String → Result Url
    pub has_health_check : (interval : ℕ) → Bool
    pub new_upstream : List RrOption → Result Upstream

  -- The virtual transport: its upstreams and retries, and the services of the health checks, each
  -- named by its option.
  pub record VirtualTransport : Type 0 where
    pub upstreams : Dict Upstream
    pub retries : ℕ
    pub services : List RrOption

  module _ (lib : VirtualLib) where
    unfoldable pub parse_urls : List String → Result (List Url)
    parse_urls [] = gives []
    parse_urls (s ∷ ss) =
        and_then (lib.parse_url s) λ u. and_then (parse_urls ss) λ us. gives (u ∷ us)

    abbrev pub check_options : Option HealthCheckConfig → Option Url → List RrOption
    check_options none uri = []
    check_options (some h) uri =
        if not (nat_eq h.timeout 0) && lib.has_health_check h.interval
        then health_check h.interval h.timeout uri h.expect ∷ []
        else []

    abbrev pub legacy_config : VirtualTransportConfig → RrUpstreamConfig
    legacy_config cfg = record {
      max_fails = cfg.max_fails;
      quarantine = cfg.quarantine;
      backend_pin = cfg.backend_pin;
      burst_fail_grace = 0;
      routing_key_header = cfg.routing_key_header;
      health_check = none;
    }

    abbrev pub parsed_config : Option String → Result (Option RrUpstreamConfig)
    parsed_config none = gives none
    parsed_config (some js) = lib.parse_rr js

    abbrev pub health_uri : Option HealthCheckConfig → Result (Option Url)
    health_uri none = gives none
    health_uri (some h) = and_then (lib.parse_request_uri h.uri_path) λ u. gives (some u)

    -- The configuration of the upstreams, and the parsed URI of their health checks.
    abbrev pub rr_config :
        VirtualTransportConfig → Option RrUpstreamConfig → Result (RrUpstreamConfig × Option Url)
    rr_config cfg none = gives (legacy_config cfg, none)
    rr_config cfg (some rr) = and_then (health_uri rr.health_check) λ uri. gives (rr, uri)

  module _ (lib : VirtualLib) (pins : Option Pins) where
    abbrev pub pin_options : RrUpstreamConfig → List RrOption
    pin_options rr =
        if nat_eq rr.backend_pin 0
        then []
        else pin_requests_with pins rr.backend_pin rr.routing_key_header ∷ []

    -- The options of the upstream `name`.
    unfoldable pub rr_options : RrUpstreamConfig → Option Url → String → List Url → List RrOption
    rr_options rr uri name urls =
        (targets urls
          ∷ max_fails rr.max_fails
          ∷ quarantine rr.quarantine
          ∷ burst_fail_grace rr.burst_fail_grace
          ∷ event_callback name
          ∷ [])
        ++ (pin_options rr ++ check_options lib rr.health_check uri)

    -- The loop over the upstreams, with those and the services made so far.
    unfoldable pub make_upstreams :
        RrUpstreamConfig
        → Option Url
        → Dict (List String)
        → Dict Upstream
        → List RrOption
        → Result (Dict Upstream × List RrOption)
    unfolding parse_urls rr_options insert
    make_upstreams rr uri [] ups services = gives (ups, services)
    make_upstreams rr uri ((name, hosts) ∷ rest) ups services =
        and_then (parse_urls lib hosts) λ urls.
          and_then (lib.new_upstream (rr_options rr uri name urls)) λ up.
            make_upstreams rr uri rest (insert name up ups)
              (services ++ check_options lib rr.health_check uri)

    unfoldable pub virtual_of : VirtualTransportConfig → Result VirtualTransport
    unfolding make_upstreams
    virtual_of cfg =
        if cfg.kind == "RoundRobin"
        then and_then (parsed_config lib cfg.config) (λ parsed.
          and_then (rr_config lib cfg parsed) λ (rr, uri).
            and_then (make_upstreams rr uri cfg.upstreams [] []) λ (ups, services).
              gives (record { upstreams = ups; retries = cfg.retries; services = services }))
        else fails (append "Unknown upstream type: " cfg.kind)

    -- A configuration that is null leaves a nil pointer, whose type is then read.
    abbrev pub with_config : Option VirtualTransportConfig → Outcome (Result VirtualTransport)
    unfolding virtual_of
    with_config none = panics
    with_config (some cfg) = returns (virtual_of cfg)

    abbrev pub if_parsed :
        Result (Option VirtualTransportConfig) → Outcome (Result VirtualTransport)
    unfolding virtual_of
    if_parsed (fails e) = returns (fails e)
    if_parsed (gives cfg) = with_config cfg

    -- A missing configuration leaves the empty one.
    abbrev pub empty_config : VirtualTransportConfig
    empty_config = record {
      kind = "";
      retries = 0;
      upstreams = [];
      config = none;
      max_fails = 0;
      quarantine = 0;
      backend_pin = 0;
      routing_key_header = "";
    }

    -- The function for the cache of the pins, if there is one: an error, or the transport with its
    -- services.
    unfoldable pub init_with : Option String → Outcome (Result VirtualTransport)
    unfolding virtual_of
    init_with none = with_config (some empty_config)
    init_with (some js) = if_parsed (lib.parse js)

  unfoldable pub init_virtual_transport :
      VirtualLib → Pins → Option String → Outcome (Result VirtualTransport)
  unfolding init_with
  init_virtual_transport lib cc js = init_with lib (some cc) js

-- The function that runs a health check: an error for another status than the expected one. The
-- parameters are Url.String with the scheme and the host of another URL, and the client's Get.
unfoldable pub check_target :
    {Url : Type 0} (url_at : Url → Url → String) (get : String → Result ℕ)
    → Url
    → (expect : ℕ) → Url
    → Option String
check_target url_at get uri expect u = elim (get (url_at uri u)) [
  | fails e ↦ some e
  | gives status ↦
      if nat_eq status expect
      then none
      else some (append "Expected " (append (decimal expect) (append ", got " (decimal status))))
]
