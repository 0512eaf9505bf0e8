-- ===== src/Metrics/Serve.antt =====
-- metrics.go, Serve. The metric library is represented by the calls that it receives; the making of
-- the sink can give an error. The interval is not negative.
use ozone.Prelude.{
  Bool, true, sym, ap, ◌∙◌, eq_refl, String-cases, Option-cases, ℕ, ◌≤◌, String, ◌==◌, ◌≡◌, refl,
  false, Bool-cases, inl, inr, Option, none, some, List, [], ◌∷◌, if◌then◌else◌, leb, arith,
}
use ozone.Prelude.Text.{append, is_empty}
use ozone.Metrics.{MetricsConfig, MetricsService, load_metrics_config}

pub data Output : Type 0 where
  stdout : Output
  peer : String → Output

-- The options of statsd.New.
pub record SinkOptions : Type 0 where
  pub output : Output
  pub prefix : String
  pub buffer : ℕ

pub data MetricCall : Type 0 where
  flush_interval : ℕ → MetricCall
  default_sink : SinkOptions → MetricCall
  start : MetricCall
  stop : MetricCall

abbrev pub second : ℕ
second = 1000000000

abbrev pub at_least_second : ℕ → ℕ
at_least_second n = if leb n second then second else n

abbrev pub sink_options : MetricsService → SinkOptions
sink_options ms = record {
  output = if ms.addr == "!" then stdout else peer ms.addr;
  prefix = ms.prefix;
  buffer = 1432;
}

-- The calls, to the end of the context, and the error.
unfoldable pub serve :
    (new_sink : SinkOptions → Option String) → MetricsService → List MetricCall × Option String
serve new_sink ms = if is_empty ms.addr then ([], none) else (elim (new_sink (sink_options ms)) [
  | some e ↦ ([], some e)
  | none ↦ (
    flush_interval (at_least_second ms.interval)
        ∷ default_sink (sink_options ms)
        ∷ start
        ∷ stop
        ∷ [],
    none,
  )
])

-- The calls, unless there is the error.
abbrev pub unless : Option String → List MetricCall → List MetricCall × Option String
unless none calls = (calls, none)
unless (some e) calls = ([], some e)

-- The address that an output goes to; "!" is the standard output.
abbrev pub destination : Output → String
destination stdout = "!"
destination (peer a) = a

abbrev pub is_stdout : Output → Bool
is_stdout stdout = true
is_stdout (peer a) = false

-- What the names of the metrics begin with: the configured prefix, or else the application, or a
-- default for it, and the identity.
abbrev pub prefix_of : MetricsConfig → String
prefix_of cfg =
    if is_empty cfg.prefix
    then append (if is_empty cfg.application then "reverse-http-proxy" else cfg.application)
        (append "." cfg.ident)
    else cfg.prefix

-- The options send the metrics to the configured address, under the prefix.
abbrev pub IsFor : MetricsConfig → SinkOptions → Type 0
IsFor cfg o =
    (destination o.output ≡ cfg.address)
    × (is_stdout o.output ≡ (cfg.address == "!"))
    × (o.prefix ≡ prefix_of cfg)
    × (o.buffer ≡ 1432)

sink_options-destination :
    (ms : MetricsService)
    → (destination (sink_options ms).output ≡ ms.addr)
      × (is_stdout (sink_options ms).output ≡ (ms.addr == "!"))
sink_options-destination ms = elim (String-cases ms.addr "!") [
  | inl e ↦ rw (e, eq_refl) (refl, refl)
  | inr e ↦ rw e (refl, refl)
]

some-injective {ℓ} : {A : Type ℓ} {a b : A} → some a ≡ some b → a ≡ b
some-injective e = cc

loaded :
    (hostname : Option String) (cfg : MetricsConfig) (ms : MetricsService)
    → load_metrics_config hostname (some cfg) ≡ some ms
    → (is_empty ms.addr ≡ false)
      × (ms.addr ≡ cfg.address)
      × (ms.interval ≡ cfg.interval)
      × (ms.prefix ≡ prefix_of cfg)
unfolding load_metrics_config
loaded hostname cfg ms e = elim (Bool-cases (is_empty cfg.address)) [
  | inl a ↦ ground arith
  | inr a ↦ elim (Bool-cases (is_empty cfg.ident)) [
    | inl d ↦ ground arith
    | inr d ↦
        let made = some-injective (rw (load_metrics_config, a, d) at e) in
        (
          ap (λ m. is_empty m.addr) (sym made) ∙ a,
          ap (λ m. m.addr) (sym made),
          ap (λ m. m.interval) (sym made),
          ap (λ m. m.prefix) (sym made),
        )
  ]
]

-- A service that loadMetricsConfig makes of a configuration asks for one sink, which sends to the
-- configured address, or to the standard output for the address "!", under the configured prefix or
-- one of the application and the identity. If that gives an error, Serve gives it and starts nothing;
-- else it flushes at an interval that is at least a second and at least the configured one, and in
-- the end stops: the early return of Serve for an empty address is not reached.
pub serve_lem :
    (hostname : Option String) (cfg : MetricsConfig) (ms : MetricsService)
    (new_sink : SinkOptions → Option String)
    → load_metrics_config hostname (some cfg) ≡ some ms
    → (o : SinkOptions) × (n : ℕ) × (IsFor cfg o)
      × (second ≤ n)
      × (cfg.interval ≤ n)
      × (serve new_sink ms
          ≡ unless (new_sink o) (flush_interval n ∷ default_sink o ∷ start ∷ stop ∷ []))
unfolding serve
serve_lem hostname cfg ms new_sink l =
    let (some_address, address, interval, prefix) = loaded hostname cfg ms l in
    let (dest, out) = sink_options-destination ms in
    (
      sink_options ms,
      at_least_second ms.interval,
      (dest ∙ address, out ∙ ap (λ a. a == "!") address, prefix, refl),
      ground arith,
      ground arith,
      elim (Option-cases (new_sink (sink_options ms))) [
        | inl n ↦ rw (some_address, n) refl
        | inr (e, n) ↦ rw (some_address, n) refl
      ],
    )
