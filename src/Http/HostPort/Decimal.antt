-- ===== src/Http/HostPort/Decimal.antt =====
-- What strconv.Itoa gives is a port.
use Prim.Native.Nat.{zero, suc, ◌/◌, ◌%◌}
use Prim.Native.String.{[] as nil, ◌∷◌ as cons}
use ozone.Prelude.{ℕ, String, ◌≡◌, refl, ◌∙◌, false, arith, Bool-cases, inl, inr, ltb}
use ozone.Prelude.Text.{decimal_from, decimal, digit_text, translate_digit}
use ozone.Http.HostPort.{contains}
use ozone.Http.HostPort.RoundTrip.{contains-append}

contains-translate_digit :
    (m : ℕ) (s : String) (n : ℕ) → contains m s ≡ false → contains m (translate_digit s n) ≡ false
unfolding contains
contains-translate_digit m nil n h = refl
contains-translate_digit m (cons c s) zero h = ground (arith, h)
contains-translate_digit m (cons c s) (suc n) h = contains-translate_digit m s n (ground (arith, h))

-- A character that is not a digit is not in the decimal.
contains-decimal_from :
    (m fuel n : ℕ) → contains m "0123456789" ≡ false → contains m (decimal_from fuel n) ≡ false
unfolding contains decimal_from
contains-decimal_from m zero n h = refl
contains-decimal_from m (suc fuel) n h =
    let more = contains-decimal_from m fuel (n / 10) h in
    elim (Bool-cases (ltb n 10)) [
      | inl t ↦ rw t (contains-translate_digit m "0123456789" n h)
      | inr f ↦ rw f (
          contains-append m (decimal_from fuel (n / 10)) (digit_text (n % 10))
          ∙ rw (more, contains-translate_digit m "0123456789" (n % 10) h) refl)
    ]

pub contains-decimal : (m n : ℕ) → contains m "0123456789" ≡ false → contains m (decimal n) ≡ false
unfolding decimal
contains-decimal m n h = contains-decimal_from m (suc n) n h
