-- ===== src/Proxy/Virtual/Pins.antt =====
-- rrPinCache: the number of the pinned backend in the proxy's cache, as the bytes of a varint in a
-- buffer of eight bytes. An int is the 64 bits that stand for it, so -1 is 2 ^ 64 - 1.
pub mod RoundTrip
use ozone.Prelude.{
  ℕ, zero, suc, ◌+◌, ◌-◌, ◌*◌, ◌/◌, ◌%◌, ◌^◌, String, Bool, true, false, ◌&&◌, List, [], ◌∷◌,
  if◌then◌else◌, ltb, nat_eq,
}
use ozone.Prelude.Outcome.{Outcome, returns, panics, ◌>>=◌}
use ozone.Prelude.Result.{Result, fails, gives}

-- rproxymod.Cache, as far as rrPinCache uses it: Set, Get and Delete over the states of a cache.
pub record ByteCache (S : Type 0) : Type 0 where
  pub set : String → List ℕ → (ttl : ℕ) → S → Result S
  pub get : String → S → Result (List ℕ) × S
  pub delete : String → S → S

abbrev pub zeros : ℕ → List ℕ
zeros zero = []
zeros (suc n) = 0 ∷ zeros n

-- binary.PutUvarint of a number into a buffer of zeros: the buffer afterwards. A write past its end
-- panics. The byte with the highest bit set is written as a sum.
unfoldable pub put_uvarint : (room : ℕ) → ℕ → Outcome (List ℕ)
put_uvarint zero x = panics
put_uvarint (suc room) x =
    let rest = put_uvarint room (x / 128) in
    if ltb x 128
    then returns (x ∷ zeros room)
    else rest >>= λ bytes. returns ((x % 128 + 128) ∷ bytes)

-- The loop of binary.Uvarint, at byte `i` and bit `s`: the number, or 0 after an overflow and at an
-- early end. The bits that are set so far lie below bit `s`, so the or is a sum.
unfoldable pub uvarint_from : (i x s : ℕ) → List ℕ → ℕ
uvarint_from i x s [] = 0
uvarint_from i x s (b ∷ rest) =
    let more = uvarint_from (suc i) ((x + b % 128 * 2 ^ s) % 2 ^ 64) (s + 7) rest in
    if nat_eq i 10
    then 0
    else if ltb b 128
    then (if nat_eq i 9 && ltb 1 b then 0 else (x + b * 2 ^ s) % 2 ^ 64)
    else more

unfoldable pub uvarint : List ℕ → ℕ
unfolding uvarint_from
uvarint bytes = uvarint_from 0 0 0 bytes

module _ {S : Type 0} (cc : ByteCache S) where
  abbrev pub stored_or : S → Result S → S
  stored_or s (gives t) = t
  stored_or s (fails e) = s

  -- Set: an error of the cache is ignored.
  unfoldable pub pin_set : String → (value : ℕ) → (ttl : ℕ) → S → Outcome S
  unfolding put_uvarint
  pin_set key value ttl s =
      put_uvarint 8 value >>= λ buf. returns (stored_or s (cc.set key buf ttl s))

  abbrev minus_one : ℕ
  minus_one = 2 ^ 64 - 1

  abbrev pinned : Result (List ℕ) → ℕ
  pinned (fails e) = minus_one
  pinned (gives bytes) = uvarint bytes

  unfoldable pub pin_get : String → S → ℕ × S
  unfolding uvarint
  pin_get key s = let (bytes, t) = cc.get key s in (pinned bytes, t)

  unfoldable pub pin_delete : String → S → S
  pin_delete key s = cc.delete key s
