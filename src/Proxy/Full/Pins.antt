-- ===== src/Proxy/Full/Pins.antt =====
-- The pins of handlers/rproxy/vtransport.go in the caches of handlers/rproxy/cache/. The cache below
-- YbcCache keeps what it is given. A []byte is a list of numbers or the text that stands for it.
use ozone.Prelude.{ℕ, ◌-◌, ◌^◌, ◌<◌, String, eq_refl, ◌≡◌, refl, Option, none, some, List, []}
use ozone.Prelude.Dict.{lookup, lookup-insert}
use ozone.Prelude.Outcome.{returns, Returns, Returns->>=}
use ozone.Prelude.Result.{Result, fails, gives, gives-injective}
use ozone.Cache.Null.{new_null_cache, Answer, NullCache, null_get, null_set}
use ozone.Cache.Ybc.{GetResult, hit, miss, failure, ybc_get, ybc_set, ybc_delete}
use ozone.Cache.Ybc.Alone.{read}
use ozone.Cache.New.{Cache, CacheLib, new_cache, null, ybc}
use ozone.Proxy.Virtual.Pins.{uvarint, ByteCache, pin_set, pin_get, put_uvarint, stored_or}
use ozone.Proxy.Virtual.Pins.RoundTrip.{uvarint-put_uvarint, pin_get-pin_set}

module _ (text : List ℕ → String) (bytes : String → List ℕ) where
  abbrev value_or_nil : Option String → List ℕ
  value_or_nil none = []
  value_or_nil (some v) = bytes v

  abbrev of_answer : Answer → Result (List ℕ)
  of_answer a = elim a.err [ some e ↦ fails e | none ↦ gives (value_or_nil a.value) ]

  abbrev of_read : GetResult → Result (List ℕ)
  of_read (hit v) = gives (bytes v)
  of_read miss = fails "cache miss"
  of_read (failure e) = fails e

  abbrev of_set : Option String → NullCache → Result Cache
  of_set (some e) nc = fails e
  of_set none nc = gives (null nc)

  unfoldable pub cache_get : String → Cache → Result (List ℕ) × Cache
  unfolding lookup null_get ybc_get
  cache_get key (null nc) = (of_answer (null_get key nc).0, null (null_get key nc).1)
  cache_get key (ybc yc) = let r = read (lookup key yc.store) in (of_read r, ybc (ybc_get r yc))

  unfoldable pub cache_set : String → List ℕ → ℕ → Cache → Result Cache
  unfolding null_set ybc_set
  cache_set key b ttl (null nc) =
      of_set (null_set key (text b) ttl nc).0 (null_set key (text b) ttl nc).1
  cache_set key b ttl (ybc yc) = gives (ybc (ybc_set key (text b) yc))

  unfoldable pub cache_delete : String → Cache → Cache
  unfolding ybc_delete
  cache_delete key (null nc) = null nc
  cache_delete key (ybc yc) = ybc (ybc_delete key yc)

  abbrev pub byte_cache : ByteCache Cache
  byte_cache = record { set = cache_set; get = cache_get; delete = cache_delete }

  module _ (text_lem : (b : List ℕ) → bytes (text b) ≡ b) where
    cache_get-cache_set :
        (key : String) (b : List ℕ) (ttl : ℕ) (s t : Cache)
        → cache_set key b ttl s ≡ gives t
        → (cache_get key t).0 ≡ gives b
    unfolding cache_get cache_set
    cache_get-cache_set key b ttl (null nc) t e = cc
    cache_get-cache_set key b ttl (ybc yc) t e =
        let same = gives-injective e in
        rw (← same) (rw (lookup-insert key key (text b) yc.store, eq_refl key, text_lem b) refl)

    null_pins :
        (key : String) (value ttl : ℕ) (nc : NullCache)
        → value < 2 ^ 56
        → Returns
            (λ t. (pin_get byte_cache key t).0 ≡ 2 ^ 64 - 1)
            (pin_set byte_cache key value ttl (null nc))
    unfolding pin_set pin_get cache_get cache_set
    null_pins key value ttl nc h =
        Returns->>= (λ b. uvarint b ≡ value) (λ t. (pin_get byte_cache key t).0 ≡ 2 ^ 64 - 1)
          (put_uvarint 8 value)
          (λ b. returns (stored_or byte_cache (null nc) (byte_cache.set key b ttl (null nc))))
          (uvarint-put_uvarint value h) λ b r. refl

    -- What is to be read for a pin that was set.
    abbrev pub read_after : Cache → ℕ → ℕ
    read_after (null nc) value = 2 ^ 64 - 1
    read_after (ybc yc) value = value

    -- If texts stand for bytes without loss: the number of a backend below 2 ^ 56 is set without a
    -- panic. Through a YbcCache over a cache that keeps what it is given, it is then what is read
    -- for the key; through the null cache, which NewCache gives without a configuration, -1 is read,
    -- the answer for no pin.
    pub byte_cache_lem :
        (lib : CacheLib) (key : String) (value ttl : ℕ) (s : Cache)
        → value < 2 ^ 56
        → Returns
            (λ t. (pin_get byte_cache key t).0 ≡ read_after s value)
            (pin_set byte_cache key value ttl s)
          × (new_cache lib none ≡ gives (null new_null_cache))
    unfolding cache_set new_cache
    byte_cache_lem lib key value ttl (ybc yc) h = (
      pin_get-pin_set byte_cache cache_get-cache_set key value ttl (ybc yc) (λ b. (_, refl)) h,
      refl,
    )
    byte_cache_lem lib key value ttl (null nc) h = (null_pins key value ttl nc h, refl)
