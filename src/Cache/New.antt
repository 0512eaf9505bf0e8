-- ===== src/Cache/New.antt =====
-- handlers/rproxy/cache/cache.go, and NewYbcCache in ybc.go: the cache of a configuration. The JSON
-- parser and the opening of the cache below are parameters.
use ozone.Prelude.{ℕ, String, ◌==◌, ◌≡◌, refl, Option, none, some, if◌then◌else◌}
use ozone.Prelude.Text.{append}
use ozone.Prelude.Result.{Result, fails, gives, and_then}
use ozone.Cache.Null.{NullCache, new_null_cache}
use ozone.Cache.Ybc.{YbcCache, new_ybc_cache}

pub record CacheConfig : Type 0 where
  pub kind : String
  pub config : Option String

pub record YbcConfig : Type 0 where
  pub max_item_size : ℕ
  pub max_items_count : ℕ

-- rproxymod.Cache, of the two types that there are.
pub data Cache : Type 0 where
  null : NullCache → Cache
  ybc : YbcCache → Cache

-- ParseInto of a CacheConfig, which gives none for null; ParseInto of a YbcConfig over its defaults;
-- and OpenSimpleCache for a number of items.
pub record CacheLib : Type 0 where
  pub parse : String → Result (Option CacheConfig)
  pub parse_ybc : Option String → YbcConfig → Result YbcConfig
  pub open_simple_cache : (max_items_count : ℕ) → Result (Unit {0})

abbrev ybc_defaults : YbcConfig
ybc_defaults = record { max_item_size = 1024; max_items_count = 64000 }

unfoldable pub open_ybc_cache : CacheLib → Option String → Result YbcCache
open_ybc_cache lib js =
    and_then (lib.parse_ybc js ybc_defaults)
      λ cfg. and_then (lib.open_simple_cache cfg.max_items_count) λ opened. gives new_ybc_cache

abbrev pub cache_of : CacheLib → Option CacheConfig → Result Cache
unfolding open_ybc_cache
cache_of lib none = gives (null new_null_cache)
cache_of lib (some cfg) =
    if cfg.kind == "YBC"
    then and_then (open_ybc_cache lib cfg.config) (λ yc. gives (ybc yc))
    else fails (append "Unknown Cache type " cfg.kind)

-- NewCache
unfoldable pub new_cache : CacheLib → Option String → Result Cache
unfolding open_ybc_cache
new_cache lib none = cache_of lib none
new_cache lib (some js) = and_then (lib.parse js) (cache_of lib)

-- A cache of a configuration that is null keeps nothing.
null_config :
    new_cache
      (record {
        parse = λ js. gives none;
        parse_ybc = λ js cfg. gives cfg;
        open_simple_cache = λ n. gives tt;
      })
      (some "null")
    ≡ gives (null new_null_cache)
unfolding new_cache
null_config = refl
