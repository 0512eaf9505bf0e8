-- ===== src/Proxy/Full/Tests.antt =====
-- A proxy with a virtual transport, and handlers without a configuration.
use Prim.Native.Char.{code}
use Prim.Native.String.{[] as nil, ◌∷◌ as cons}
use ozone.Cache.Ybc.{new_ybc_cache}
use ozone.Proxy.Virtual.Pins.{pin_set, pin_get}
use ozone.Proxy.Full.Pins.{byte_cache, byte_cache_lem}
use ozone.Prelude.{
  zero, suc, ◌+◌, ap, ◌∙◌, arith, nat_eq, if◌then◌else◌, ℕ, String, ◌≡◌, refl, none, some, List, [],
  ◌∷◌,
}
use ozone.Prelude.Dict.{lookup}
use ozone.Prelude.Outcome.{returns, panics, Returns}
use ozone.Prelude.Result.{gives}
use ozone.Rproxymod.{base_module}
use ozone.Cache.Null.{new_null_cache}
use ozone.Cache.New.{new_cache, null, ybc}
use ozone.Handler.Registry.{
  HandlerRegistry, HandlerConfig, new_handler_registry, refused, malformed,
}
use ozone.Handler.Resolve.{handler_by_name}
use ozone.Proxy.Build.{virtual, is_so}
use ozone.Proxy.Virtual.Build.{rr_options, init_virtual_transport}
use ozone.Proxy.Full.{Proxy, Virtual, make_proxy, handler_env}
use ozone.Proxy.Full.Data.{tls_lib, virtual_config, proxy_config, out, registry}
use ozone.Proxy.Full.Laws.{IsComposed, make_proxy-IsComposed}
use ozone.Proxy.Full.NoConfig.{handler_by_name_no_config}

abbrev transport : Virtual tls_lib String (List ℕ)
transport = record { upstreams = ("a", 6 ∷ []) ∷ []; retries = 2; services = [] }

abbrev pinned : Proxy tls_lib String (List ℕ)
pinned = record {
  chain = record {
    transport = virtual transport;
    modules = base_module ∷ [];
    modnames = "m" ∷ [];
    service = some [];
  };
  cache = null new_null_cache;
}

made :
    make_proxy tls_lib String (List ℕ) out "/plugins" registry (some "pinned")
    ≡ returns (gives (pinned, registry))
unfolding make_proxy init_virtual_transport rr_options new_cache is_so lookup
made = refl

make_proxy-IsComposed_example :
    IsComposed out (proxy_config "pinned") (virtual_config 10) (pinned, registry)
unfolding lookup
make_proxy-IsComposed_example =
    make_proxy-IsComposed out "/plugins" registry "pinned" "pinned" (proxy_config "pinned")
      (virtual_config 10) (pinned, registry) refl refl refl refl (refl, tt) made

abbrev bare : HandlerConfig
bare = record { kind = "ReverseProxy"; plugin = ""; metrics = ""; config = none }

abbrev handlers : HandlerRegistry
unfolding new_handler_registry
handlers = new_handler_registry [] [] (("front", bare) ∷ [])

handler_by_name_no_config_example :
    handler_by_name
      (handler_env tls_lib String
        (List ℕ)
        out
        "/plugins"
        registry
        (λ name. 1)
        (λ p. refused "none")
        (λ js. malformed "none"))
      1
      "front"
      handlers
    ≡ panics
unfolding new_handler_registry lookup
handler_by_name_no_config_example =
    handler_by_name_no_config out "/plugins" registry (λ name. 1) (λ p. refused "none")
      (λ js. malformed "none") 0 "front" bare handlers refl refl refl refl refl tt

-- The bytes of a text: the numbers of ones before each other character.
ones : ℕ → String → String
ones zero s = s
ones (suc n) s = cons "1" (ones n s)

to_text : List ℕ → String
unfolding ones
to_text [] = ""
to_text (n ∷ ns) = ones n (cons "0" (to_text ns))

bytes_from : ℕ → String → List ℕ
bytes_from n nil = []
bytes_from n (cons c s) =
    let more = bytes_from (suc n) s in
    let next = n ∷ bytes_from 0 s in if nat_eq (code c) b'1' then more else next

to_bytes : String → List ℕ
unfolding bytes_from
to_bytes s = bytes_from 0 s

bytes_from-ones : (n k : ℕ) (s : String) → bytes_from k (ones n s) ≡ bytes_from (k + n) s
unfolding ones bytes_from
bytes_from-ones zero k s = ap (λ m. bytes_from m s) (omega arith)
bytes_from-ones (suc n) k s = bytes_from-ones n (suc k) s ∙ ap (λ m. bytes_from m s) (omega arith)

to_bytes-to_text : (b : List ℕ) → to_bytes (to_text b) ≡ b
unfolding to_bytes to_text
to_bytes-to_text [] = refl
to_bytes-to_text (n ∷ ns) =
    let count : 0 + n ≡ n = omega arith in
    let rest = to_bytes-to_text ns in
    bytes_from-ones n 0 (cons "0" (to_text ns)) ∙ (λ i. count i ∷ rest i)

byte_cache_example :
    Returns
      (λ t. (pin_get (byte_cache to_text to_bytes) "user" t).0 ≡ 3)
      (pin_set (byte_cache to_text to_bytes) "user" 3 60 (ybc new_ybc_cache))
    × (new_cache out.caches none ≡ gives (null new_null_cache))
byte_cache_example =
    byte_cache_lem to_text to_bytes to_bytes-to_text out.caches "user" 3 60 (ybc new_ybc_cache)
      (omega arith)
