-- ===== src/Cache/Ybc.antt =====
-- handlers/rproxy/cache/ybc.go: a cache that many goroutines read, in which one fetch serves all that
-- miss the same key meanwhile. Each function is one section of GetAndStore that no other goroutine
-- interrupts. A call is named by the goroutine that made it, and each goroutine makes one call of
-- GetAndStore. The cache below is a map that can lose entries at any time.
pub mod Runs
pub mod Invariant
pub mod Theorems
pub mod SingleFlight
pub mod NoCrash
pub mod Progress
pub mod Alone
pub mod Crash
pub mod Uninterrupted
mod Tests
use Prim.Native.Char.{code}
use Prim.Native.String.{[] as nil, ◌∷◌ as cons}
use ozone.Prelude.{
  ℕ, suc, String, ◌==◌, ◌≡◌, Bool, true, false, not, ◌&&◌, Option, none, some, List, [], ◌∷◌,
  if◌then◌else◌, nat_eq,
}
use ozone.Prelude.Text.{append, decimal, join}
use ozone.Prelude.Dict.{Dict, lookup, insert, delete}
use ozone.Cache.Null.{Answer, Fetched, CacheStats}

-- call: the WaitGroup is done or not.
pub record FetchCall : Type 0 where
  pub done : Bool
  pub answer : Answer

-- YbcCache; `calls` holds the call that each goroutine made, if it made one.
pub record YbcCache : Type 0 where
  pub store : Dict String
  pub fetchings : Dict ℕ
  pub calls : ℕ → FetchCall
  pub stats : CacheStats

-- Where a goroutine stands in GetAndStore; at the end, the call that its answer is from. A panic of
-- the fetcher leaves the function without the sections that would follow.
pub data Pc : Type 0 where
  idle : Pc
  missed : Pc
  waiting : ℕ → Pc
  fetching : Pc
  fetched : ℕ → Pc
  stored : Pc
  signalled : Pc
  finished : Option ℕ → Answer → Pc
  crashed : Pc

-- What SimpleCache.Get gives.
pub data GetResult : Type 0 where
  hit : String → GetResult
  miss : GetResult
  failure : String → GetResult

abbrev pub update {ℓ} : {A : Type ℓ} → (ℕ → A) → ℕ → A → ℕ → A
update f i a j = if nat_eq i j then a else f j

abbrev pub no_answer : Answer
no_answer = record { value = none; err = none }

-- What fmt prints of a []byte, for a key of ASCII characters.
abbrev bytes_of : String → List String
bytes_of nil = []
bytes_of (cons c s) = decimal (code c) ∷ bytes_of s

abbrev pub corrupt : String → String → String
unfolding decimal join
corrupt key e =
    append "Unexpected error when obtaining cache value for key ["
      (append "[" (append (join (bytes_of key) " ") (append "]" (append "] [" (append e "]")))))

-- The cache that NewYbcCache gives.
abbrev pub new_ybc_cache : YbcCache
new_ybc_cache = record {
  store = [];
  fetchings = [];
  calls = λ _. record { done = false; answer = no_answer };
  stats = record { hits = 0; misses = 0; errors = 0 };
}

-- Get: the counters.
unfoldable pub ybc_get : GetResult → YbcCache → YbcCache
ybc_get (hit v) yc = record yc { stats = record yc.stats { hits = suc yc.stats.hits } }
ybc_get miss yc = record yc { stats = record yc.stats { misses = suc yc.stats.misses } }
ybc_get (failure e) yc = record yc { stats = record yc.stats { errors = suc yc.stats.errors } }

-- GetAndStore, up to the lock.
abbrev pub after_get : String → GetResult → Pc
after_get key (hit v) = finished none (record { value = some v; err = none })
after_get key miss = missed
after_get key (failure e) = finished none (record { value = none; err = some (corrupt key e) })

unfoldable pub get_section : String → GetResult → YbcCache → YbcCache × Pc
unfolding ybc_get
get_section key r yc = (ybc_get r yc, after_get key r)

-- The first locked section: it joins the call of the key, or makes one.
abbrev join_or_make : Option ℕ → ℕ → String → YbcCache → YbcCache × Pc
join_or_make (some c) i key yc = (yc, waiting c)
join_or_make none i key yc = (
  record yc {
    fetchings = insert key i yc.fetchings;
    calls = update yc.calls i (record { done = false; answer = no_answer });
  },
  fetching,
)

unfoldable pub lock_section : ℕ → String → YbcCache → YbcCache × Pc
unfolding insert lookup
lock_section i key yc = join_or_make (lookup key yc.fetchings) i key yc

-- fetcher.Fetch has returned; the time to live goes on to Set.
unfoldable pub fetch_section : ℕ → Fetched → YbcCache → YbcCache × Pc
fetch_section i f yc = (
  record yc { calls = update yc.calls i (record (yc.calls i) { answer = f.answer }) },
  fetched f.ttl,
)

-- Whether a value is stored: there is one, and no error.
abbrev pub to_store : Answer → Option String
to_store a = elim a.err [ some e ↦ none | none ↦ a.value ]

-- Set, if it takes the value; the time to live is the cache's below.
unfoldable pub ybc_set : String → String → YbcCache → YbcCache
unfolding insert
ybc_set key v yc = record yc { store = insert key v yc.store }

abbrev pub set_value : Option String → String → YbcCache → YbcCache
set_value none key yc = yc
set_value (some v) key yc = ybc_set key v yc

-- `yc.cacher.Set`, whose error is ignored: `taken` tells whether it stored the value.
unfoldable pub set_section : ℕ → String → (taken : Bool) → YbcCache → YbcCache × Pc
unfolding ybc_set
set_section i key taken yc =
    (if taken then set_value (to_store (yc.calls i).answer) key yc else yc, stored)

-- c.wg.Done()
unfoldable pub done_section : ℕ → YbcCache → YbcCache × Pc
done_section i yc =
    (record yc { calls = update yc.calls i (record (yc.calls i) { done = true }) }, signalled)

-- The second locked section, and the return.
unfoldable pub delete_section : ℕ → String → YbcCache → YbcCache × Pc
unfolding delete
delete_section i key yc =
    (record yc { fetchings = delete key yc.fetchings }, finished (some i) (yc.calls i).answer)

-- Wait has returned.
unfoldable pub wake_section : ℕ → YbcCache → YbcCache × Pc
wake_section c yc = (yc, finished (some c) (yc.calls c).answer)

-- Delete, and the expiry or the eviction of an entry.
unfoldable pub ybc_delete : String → YbcCache → YbcCache
unfolding delete
ybc_delete key yc = record yc { store = delete key yc.store }

-- Clear: the locked section; the entries of the cache then go one by one.
unfoldable pub clear_section : YbcCache → YbcCache
clear_section yc = record yc { fetchings = [] }

unfoldable pub ybc_cache_stats : YbcCache → CacheStats
ybc_cache_stats yc = yc.stats
