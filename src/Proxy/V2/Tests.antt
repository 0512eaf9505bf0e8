-- ===== src/Proxy/V2/Tests.antt =====
-- The two versions at a configuration that pins no requests.
use ozone.Prelude.{ℕ, String, ◌≡◌, refl, sym, ap, subst, nat_eq, Option, none, some, List}
use ozone.Prelude.Result.{gives-injective}
use ozone.Cache.Null.{new_null_cache}
use ozone.Cache.New.{new_cache, null}
use ozone.Proxy.Virtual.Build.{RrUpstreamConfig}
use ozone.Proxy.Full.{make_proxy}
use ozone.Proxy.Full.Data.{tls_lib, proxy_config, virtual_config, out, registry}
use ozone.Proxy.V2.{make_proxy_v2}
use ozone.Proxy.V2.Unpinned.{AllUnpinned, Unpinned}
use ozone.Proxy.V2.Laws.{without_cache, make_proxy_v2_lem}

no_pins : AllUnpinned out.upstreams (virtual_config 0)
no_pins none rr uri p q =
    ap (λ (x : RrUpstreamConfig × Option String). nat_eq x.0.backend_pin 0)
      (sym (gives-injective q))
no_pins (some parsed) rr uri p q = cc

unpinned : Unpinned out.upstreams (some "{}")
unpinned cfg e =
    let same : virtual_config 0 ≡ cfg = cc e in subst (AllUnpinned out.upstreams) same no_pins

make_proxy_v2_example :
    without_cache (make_proxy tls_lib String (List ℕ) out "/plugins" registry (some "{}"))
    ≡ make_proxy_v2 tls_lib String (List ℕ) out "/plugins" registry (some "{}")
unfolding new_cache
make_proxy_v2_example =
    make_proxy_v2_lem out "/plugins" registry (some "{}") (proxy_config "{}") (null new_null_cache)
      refl refl unpinned
