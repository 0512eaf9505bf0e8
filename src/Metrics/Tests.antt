-- ===== src/Metrics/Tests.antt =====
-- A service with a name of its own, on two hosts.
use ozone.Prelude.{ℕ, ◌≤◌, ◌≡◌, refl, none, some, [], ◌∷◌}
use ozone.Prelude.Text.{split}
use ozone.Metrics.{MetricsConfig, MetricsService, guessed, load_metrics_config}
use ozone.Metrics.Serve.{
  SinkOptions, IsFor, peer, flush_interval, default_sink, start, stop, second, unless, serve,
  serve_lem,
}

abbrev cfg : MetricsConfig
cfg = record {
  address = "stats:8125";
  interval = 1000000000;
  prefix = "";
  application = "";
  ident = "front";
}

named :
    load_metrics_config none (some cfg)
    ≡ some
        (record { addr = "stats:8125"; prefix = "reverse-http-proxy.front"; interval = 1000000000 })
unfolding load_metrics_config
named = refl

abbrev fast : MetricsConfig
fast = record cfg { interval = 7 }

abbrev fast_service : MetricsService
fast_service = record { addr = "stats:8125"; prefix = "reverse-http-proxy.front"; interval = 7 }

abbrev options : SinkOptions
options = record { output = peer "stats:8125"; prefix = "reverse-http-proxy.front"; buffer = 1432 }

once_a_second :
    serve (λ o. none) fast_service
    ≡ (flush_interval second ∷ default_sink options ∷ start ∷ stop ∷ [], none)
unfolding serve
once_a_second = refl

serve_example :
    (o : SinkOptions) × (n : ℕ) × (IsFor fast o)
    × (second ≤ n)
    × (7 ≤ n)
    × (serve (λ o. none) fast_service
        ≡ unless none (flush_interval n ∷ default_sink o ∷ start ∷ stop ∷ []))
unfolding load_metrics_config
serve_example = serve_lem none fast fast_service (λ o. none) refl

short_name : guessed (some "web1.example.com") ≡ "web1"
unfolding guessed split
short_name = refl
