-- ===== src/Cache/Null.antt =====
-- handlers/rproxy/cache/null.go: a cache that keeps nothing.
use ozone.Prelude.{ℕ, suc, String, Option, none, some, if◌then◌else◌, is_some}
use ozone.Prelude.Text.{append}

-- What a Get, a GetAndStore or a Fetch returns: a value, which may be nil, and an error.
pub record Answer : Type 0 where
  pub value : Option String
  pub err : Option String

-- What CacheFetcher.Fetch returns.
pub record Fetched : Type 0 where
  pub answer : Answer
  pub ttl : ℕ

pub record CacheStats : Type 0 where
  pub hits : ℕ
  pub misses : ℕ
  pub errors : ℕ

pub record NullCache : Type 0 where
  pub cache_error_count : ℕ

abbrev pub new_null_cache : NullCache
new_null_cache = record { cache_error_count = 0 }

abbrev refusal : String → String → String
refusal op key =
    append "OP:"
      (append op (append "(" (append key ") Null cache configured, would always return error")))

unfoldable pub null_set : String → String → ℕ → NullCache → Option String × NullCache
null_set key value ttl nc = (some (refusal "Set" key), nc)

unfoldable pub null_get : String → NullCache → Answer × NullCache
null_get key nc = (record { value = none; err = some (refusal "Get" key) }, nc)

-- GetAndStore: the fetcher's answer, and a count of its errors.
unfoldable pub null_get_and_store : String → Fetched → NullCache → Answer × NullCache
null_get_and_store key f nc = (
  f.answer,
  if is_some f.answer.err then record { cache_error_count = suc nc.cache_error_count } else nc,
)

unfoldable pub null_cache_stats : NullCache → CacheStats
null_cache_stats nc = record { hits = 0; misses = 0; errors = nc.cache_error_count }
