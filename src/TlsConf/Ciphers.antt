-- ===== src/TlsConf/Ciphers.antt =====
-- tlsconf/tls.go, getCiphers: the 16-bit codes of the ciphers.
pub mod Laws
use Prim.Native.Char.{code}
use Prim.Native.String.{[] as nil, ◌∷◌ as cons}
use ozone.Prelude.{
  ℕ, ◌+◌, ◌-◌, ◌*◌, ◌^◌, String, ◌==◌, Bool, true, false, ◌&&◌, Option, none, some, List, [], ◌∷◌,
  if◌then◌else◌, leb, ltb,
}
use ozone.Prelude.Text.{append, split}
use ozone.Prelude.Result.{Result, fails, gives, and_then}

-- The format and the specification; `spec` is what ParseInto gives for the JSON as a string.
pub record CipherConfig : Type 0 where
  pub format : String
  pub spec : Result String

abbrev pub hex_value : ℕ → Option ℕ
hex_value n =
    if leb b'0' n && leb n b'9'
    then some (n - b'0')
    else if leb b'a' n && leb n b'f'
    then some (n - b'a' + 10)
    else if leb b'A' n && leb n b'F'
    then some (n - b'A' + 10)
    else none

unfoldable pub hex_digits : ℕ → String → Option ℕ
hex_digits acc nil = some acc
hex_digits acc (cons c s) = elim (hex_value (code c)) [
  | none ↦ none
  | some d ↦ hex_digits (acc * 16 + d) s
]

abbrev parse_error : String → String → String
parse_error str what = append "strconv.ParseUint: parsing \"" (append str (append "\": " what))

abbrev in_range : String → Option ℕ → Result ℕ
in_range str none = fails (parse_error str "invalid syntax")
in_range str (some n) =
    if ltb n (2 ^ 16) then gives n else fails (parse_error str "value out of range")

-- strconv.ParseUint(str, 16, 16)
unfoldable pub parse_uint16 : String → Result ℕ
unfolding hex_digits
parse_uint16 nil = in_range "" none
parse_uint16 (cons c s) = in_range (cons c s) (hex_digits 0 (cons c s))

-- The loop of the format "hex".
unfoldable pub hex_ciphers : List String → Result (List ℕ)
unfolding parse_uint16
hex_ciphers [] = gives []
hex_ciphers (w ∷ ws) = and_then (parse_uint16 w) λ c. and_then (hex_ciphers ws) λ cs. gives (c ∷ cs)

abbrev or_unreachable : Result ℕ → Result ℕ
or_unreachable (gives n) = gives n
or_unreachable (fails e) = fails "Unreachable: OpenSSL TLS cipher config error"

-- The loop of the format "openssl" over the matches of the regular expression: the high and the low
-- byte.
unfoldable pub openssl_ciphers : List (String × String) → Result (List ℕ)
unfolding parse_uint16
openssl_ciphers [] = gives []
openssl_ciphers ((high, low) ∷ ms) =
    and_then (or_unreachable (parse_uint16 (append high low)))
      λ c. and_then (openssl_ciphers ms) λ cs. gives (c ∷ cs)

abbrev pub from_lines : String → List (String × String) → Result (List ℕ)
from_lines spec [] = fails (append "CipherSpec " (append spec " resulted in no ciphers"))
from_lines spec (m ∷ ms) = openssl_ciphers (m ∷ ms)

-- getCiphers; `openssl` gives the matches in the output of the command, or its error.
unfoldable pub get_ciphers :
    (openssl : String → Result (List (String × String))) → Option CipherConfig → Result (List ℕ)
unfolding hex_ciphers
get_ciphers openssl none = fails "Missing TLS/CipherSuites spec"
get_ciphers openssl (some cfg) =
    if cfg.format == "openssl"
    then and_then cfg.spec (λ spec. and_then (openssl spec) (λ ms. from_lines spec ms))
    else if cfg.format == "hex"
    then and_then cfg.spec (λ spec. hex_ciphers (split spec b' '))
    else fails (append "Invalid TLS Cipher spec: " cfg.format)
