-- ===== src/Proxy/Virtual/Tests.antt =====
-- Two upstreams, a cache that keeps everything, and the theorems at them. A URL is its text, and an
-- upstream the number of its options.
use ozone.Prelude.{
  ℕ, String, ◌≡◌, ◌^◌, refl, arith, true, Option, eq_refl, ◌-◌, none, some, List, [], ◌∷◌,
}
use ozone.Prelude.Lists.{length}
use ozone.Prelude.Text.{append, decimal}
use ozone.Prelude.Dict.{Dict, lookup, insert, delete, lookup-insert}
use ozone.Prelude.Outcome.{panics, Returns}
use ozone.Prelude.Result.{Result, fails, gives, gives-injective}
use ozone.Proxy.Virtual.Pins.{ByteCache, pin_set, pin_get}
use ozone.Proxy.Virtual.Pins.RoundTrip.{pin_get-pin_set}
use ozone.Proxy.Virtual.Build.{
  VirtualTransportConfig, VirtualLib, VirtualTransport, rr_options, virtual_of,
  init_virtual_transport, check_target,
}

abbrev or_miss : Option (List ℕ) → Result (List ℕ)
or_miss none = fails "miss"
or_miss (some bytes) = gives bytes

abbrev all_kept : ByteCache (Dict (List ℕ))
unfolding lookup insert delete
all_kept = record {
  set = λ key bytes ttl m. gives (insert key bytes m);
  get = λ key m. (or_miss (lookup key m), m);
  delete = λ key m. delete key m;
}

all_kept_lem :
    (key : String) (bytes : List ℕ) (ttl : ℕ) (s t : Dict (List ℕ))
    → all_kept.set key bytes ttl s ≡ gives t
    → (all_kept.get key t).0 ≡ gives bytes
unfolding lookup insert all_kept
all_kept_lem key bytes ttl s t e =
    let same = gives-injective e in
    rw (← same) (rw (lookup-insert key key bytes s, eq_refl key) refl)

abbrev lib : VirtualLib String (List ℕ) ℕ
lib = record {
  parse = λ js. gives none;
  parse_rr = λ js. gives none;
  parse_url = λ s. gives s;
  parse_request_uri = λ s. gives s;
  has_health_check = λ n. true;
  new_upstream = λ options. gives (length options ∷ []);
}

abbrev config : VirtualTransportConfig
config = record {
  kind = "RoundRobin";
  retries = 2;
  upstreams = ("a", "http://x/" ∷ "http://y/" ∷ []) ∷ ("b", []) ∷ [];
  config = none;
  max_fails = 3;
  quarantine = 60;
  backend_pin = 10;
  routing_key_header = "X-User";
}

abbrev made : VirtualTransport String (List ℕ) ℕ
made = record { upstreams = ("a", 6 ∷ []) ∷ ("b", 6 ∷ []) ∷ []; retries = 2; services = [] }

made_lem : virtual_of String (List ℕ) ℕ lib (some 0) config ≡ gives made
unfolding virtual_of rr_options insert
made_lem = refl

nil_config : init_virtual_transport String (List ℕ) ℕ lib 0 (some "null") ≡ panics
unfolding init_virtual_transport
nil_config = refl

unexpected :
    check_target (λ uri u. append u uri) (λ s. gives 500) "/health" 200 "http://x"
    ≡ some "Expected 200, got 500"
unfolding check_target decimal
unexpected = refl

read_back : Returns (λ t. (pin_get all_kept "user" t).0 ≡ 300) (pin_set all_kept "user" 300 60 [])
unfolding insert all_kept
read_back =
    pin_get-pin_set all_kept all_kept_lem "user" 300 60 [] (λ bytes. (_, refl)) (omega arith)

too_large : pin_set all_kept "user" (2 ^ 64 - 1) 60 [] ≡ panics
unfolding pin_set
too_large = refl
