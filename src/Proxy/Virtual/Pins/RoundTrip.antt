-- ===== src/Proxy/Virtual/Pins/RoundTrip.antt =====
-- What is read of a pin after it was set.
use ozone.Prelude.{
  ℕ, zero, suc, ◌+◌, ◌*◌, ◌/◌, ◌%◌, ◌^◌, ◌<◌, ◌≤◌, ◌≡◌, ◌↔◌, refl, ap, ◌∙◌, String, true, false,
  List, ◌∷◌, ltb, nat_eq, arith, Bool-cases, inl, inr,
}
use ozone.Prelude.Outcome.{returns, panics, ◌>>=◌, Returns, Returns-eq, Returns-map, Returns->>=}
use ozone.Prelude.Result.{gives}
use ozone.Proxy.Virtual.Pins.{
  stored_or, ByteCache, zeros, put_uvarint, uvarint_from, uvarint, pin_set, pin_get,
}
use native.Mathlib.Decide.{dec_lt}
use native.Mathlib.Nat.{div-add-mod}
use native.Mathlib.Numerals.{towards_suc}

shift_seven : (s : ℕ) → 2 ^ (s + 7) ≡ 128 * 2 ^ s
shift_seven s = simp towards_suc (omega arith)

-- The lowest seven bits and the rest, both shifted by `s`.
split_byte : (x s : ℕ) → x * 2 ^ s ≡ x % 128 * 2 ^ s + x / 128 * 2 ^ (s + 7)
split_byte x s = omega (
  arith,
  ap (λ (t : ℕ). t * 2 ^ s) (div-add-mod x 128),
  ap (λ (t : ℕ). x / 128 * t) (shift_seven s),
)

-- The last byte, and one with the highest bit set.
last_byte :
    (i x acc s : ℕ) (rest : List ℕ)
    → i ≤ 8
    → x < 128
    → acc + x * 2 ^ s < 2 ^ 64
    → uvarint_from i acc s (x ∷ rest) ≡ acc + x * 2 ^ s
unfolding uvarint_from
last_byte i x acc s rest hi hx fits = ground arith

inner_byte :
    (i g acc s : ℕ) (rest : List ℕ)
    → i ≤ 8
    → g < 128
    → acc + g * 2 ^ s < 2 ^ 64
    → uvarint_from i acc s ((g + 128) ∷ rest) ≡ uvarint_from (suc i) (acc + g * 2 ^ s) (s + 7) rest
unfolding uvarint_from
inner_byte i g acc s rest hi hg fits =
    let low : (g + 128) % 128 ≡ g = omega arith in
    let inside : nat_eq i 10 ≡ false = ground arith in
    let more : ltb (g + 128) 128 ≡ false = ground arith in
    let small : (acc + g * 2 ^ s) % 2 ^ 64 ≡ acc + g * 2 ^ s = omega arith in
    rw (low, inside, more, small) refl

-- `x` is what is still to be read.
uvarint_from-put_uvarint :
    (room i x acc s : ℕ)
    → i + room ≤ 8
    → x < 128 ^ suc room
    → acc + x * 2 ^ s < 2 ^ 64
    → Returns (λ bytes. uvarint_from i acc s bytes ≡ acc + x * 2 ^ s) (put_uvarint (suc room) x)
unfolding put_uvarint
uvarint_from-put_uvarint zero i x acc s hi hx fits =
    let last : ltb x 128 ≡ true = ground arith in
    rw last (last_byte i x acc s (zeros 0) (omega arith) (omega arith) fits)
uvarint_from-put_uvarint (suc room) i x acc s hi hx fits = elim (Bool-cases (ltb x 128)) [
  | inl last ↦ rw last (last_byte i x acc s (zeros (suc room)) (omega arith) (ground arith) fits)
  | inr more ↦
      let acc' = acc + x % 128 * 2 ^ s in
      let whole : acc' + x / 128 * 2 ^ (s + 7) ≡ acc + x * 2 ^ s = omega (arith, split_byte x s) in
      rw more (
        Returns->>=
          (λ bytes. uvarint_from (suc i) acc' (s + 7) bytes ≡ acc' + x / 128 * 2 ^ (s + 7))
          (λ bytes. uvarint_from i acc s bytes ≡ acc + x * 2 ^ s) (put_uvarint (suc room) (x / 128))
          (λ bytes. returns ((x % 128 + 128) ∷ bytes))
          (uvarint_from-put_uvarint room (suc i) (x / 128) acc' (s + 7) (omega arith) (omega arith)
            (omega arith))
          (λ bytes read.
            inner_byte i (x % 128) acc s bytes (omega arith) (omega arith) (omega arith)
            ∙ read
            ∙ whole))
]

pub uvarint-put_uvarint :
    (x : ℕ) → x < 2 ^ 56 → Returns (λ bytes. uvarint bytes ≡ x) (put_uvarint 8 x)
unfolding uvarint
uvarint-put_uvarint x h =
    Returns-map (λ bytes. uvarint_from 0 0 0 bytes ≡ 0 + x * 2 ^ 0) (λ bytes. uvarint bytes ≡ x)
      (put_uvarint 8 x) (λ bytes e. omega (arith, e))
      (uvarint_from-put_uvarint 7 0 x 0 0 (omega arith) (omega arith) (omega arith))

one-le-pow : (room : ℕ) → 1 ≤ 128 ^ room
one-le-pow zero = omega arith
one-le-pow (suc room) = omega (arith, one-le-pow room)

-- With `room` bytes left there is no room for a number of more than `room` groups of seven bits.
put_uvarint_full : (room x : ℕ) → 128 ^ room ≤ x → put_uvarint room x ≡ panics
unfolding put_uvarint
put_uvarint_full zero x h = refl
put_uvarint_full (suc room) x h =
    let deeper = put_uvarint_full room (x / 128) (omega arith) in
    let more : ltb x 128 ≡ false = ground (arith, one-le-pow room) in rw (more, deeper) refl

module _ {S : Type 0} (cache : ByteCache S) where
  -- For a cache that gives what it was given last, and that takes the pin: the number of a backend
  -- below 2 ^ 56 is set without a panic, and it is what is then read for the key.
  pub pin_get-pin_set :
      ((key : String) (bytes : List ℕ) (ttl : ℕ) (s t : S)
        → cache.set key bytes ttl s ≡ gives t
        → (cache.get key t).0 ≡ gives bytes)
      → (key : String) (value ttl : ℕ) (s : S)
      → ((bytes : List ℕ) → (t : S) × (cache.set key bytes ttl s ≡ gives t))
      → value < 2 ^ 56
      → Returns (λ t. (pin_get cache key t).0 ≡ value) (pin_set cache key value ttl s)
  unfolding pin_set pin_get
  pin_get-pin_set kept key value ttl s takes h =
      Returns->>= (λ bytes. uvarint bytes ≡ value) (λ t. (pin_get cache key t).0 ≡ value)
        (put_uvarint 8 value) (λ buf. returns (stored_or cache s (cache.set key buf ttl s)))
        (uvarint-put_uvarint value h)
        λ bytes read.
          let (t, set) = takes bytes in let got = kept key bytes ttl s t set in rw (set, got) read

  -- The number is set without a panic exactly if it is below 2 ^ 56: in particular, no negative one
  -- is.
  pub pin_set_panics :
      (key : String) (value ttl : ℕ) (s : S)
      → (pin_set cache key value ttl s ≡ panics) ↔ (2 ^ 56 ≤ value)
  unfolding pin_set
  pin_set_panics key value ttl s = (forth, λ h. rw (put_uvarint_full 8 value h) refl)
    where
      forth : (pin_set cache key value ttl s ≡ panics) → 2 ^ 56 ≤ value
      forth e = elim (dec_lt value (2 ^ 56)) [
        | yes h ↦
            let (bytes, returned, read) =
              Returns-eq (λ bytes. uvarint bytes ≡ value) (put_uvarint 8 value)
                (uvarint-put_uvarint value h) in
            let returned_too : (put_uvarint 8 value >>= λ buf.
            returns (stored_or cache s (cache.set key buf ttl s)))
                ≡ panics =
              e in
            let panicked = rw returned at returned_too in cc
        | no h ↦ omega arith
      ]
