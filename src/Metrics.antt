-- ===== src/Metrics.antt =====
-- metrics.go: the service that sends metrics, from its configuration, and what it asks of the metric
-- library while it runs.
pub mod Serve
mod Tests
use ozone.Prelude.{
  ℕ, String, ◌≡◌, refl, inl, inr, Bool, true, false, ◌||◌, Bool-cases, Option, none, some, List, [],
  ◌∷◌, if◌then◌else◌,
}
use ozone.Prelude.Text.{append, is_empty, split}

-- config.MetricsConfig; the interval is a number of nanoseconds.
pub record MetricsConfig : Type 0 where
  pub address : String
  pub interval : ℕ
  pub prefix : String
  pub application : String
  pub ident : String

pub record MetricsService : Type 0 where
  pub addr : String
  pub prefix : String
  pub interval : ℕ

abbrev first : List String → String
first [] = ""
first (s ∷ ss) = s

-- os.Hostname up to its first dot, or "unknown" if it fails.
unfoldable pub guessed : Option String → String
unfolding split
guessed none = "unknown"
guessed (some name) = first (split name b'.')

abbrev or_else : String → String → String
or_else s other = if is_empty s then other else s

abbrev service : Option String → MetricsConfig → MetricsService
service hostname cfg = record {
  addr = cfg.address;
  prefix = or_else cfg.prefix (
      append (or_else cfg.application "reverse-http-proxy")
        (append "." (or_else cfg.ident (guessed hostname))));
  interval = cfg.interval;
}

-- loadMetricsConfig; `hostname` is what os.Hostname gives, `none` an error.
unfoldable pub load_metrics_config :
    (hostname : Option String) → Option MetricsConfig → Option MetricsService
unfolding guessed
load_metrics_config hostname none = none
load_metrics_config hostname (some cfg) =
    if is_empty cfg.address || is_empty cfg.ident then none else some (service hostname cfg)

-- The host name has no influence on the service: the code that guesses the identity from it is not
-- reached.
pub load_metrics_config-hostname :
    (a b : Option String) (cfg : Option MetricsConfig)
    → load_metrics_config a cfg ≡ load_metrics_config b cfg
unfolding load_metrics_config
load_metrics_config-hostname a b none = refl
load_metrics_config-hostname a b (some cfg) = elim (Bool-cases (is_empty cfg.address)) [
  | inl e ↦ rw e refl
  | inr e ↦ elim (Bool-cases (is_empty cfg.ident)) [
    | inl d ↦ rw (e, d) refl
    | inr d ↦ rw (e, d) refl
  ]
]
