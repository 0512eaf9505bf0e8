-- ===== src/TlsConf/Ciphers/Laws.antt =====
-- The codes that the two formats of a cipher specification give.
use Prim.Native.Char.{Char, code}
use Prim.Native.String.{[] as nil, ◌∷◌ as cons}
use text.Mathlib.TextLemmas.{cons-append, nil-append}
use ozone.Prelude.{
  ℕ, suc, ◌+◌, ◌*◌, ◌<◌, String, ◌≡◌, refl, ap, ◌∙◌, subst, Option, none, some, List, [], ◌∷◌,
  arith,
}
use ozone.Prelude.Lists.{length, All}
use ozone.Prelude.Text.{append}
use ozone.Prelude.Result.{gives, and_then-gives, gives-injective}
use ozone.TlsConf.Ciphers.{
  hex_value, hex_digits, parse_uint16, hex_ciphers, openssl_ciphers, in_range,
}

hex_value-lt : (n d : ℕ) → hex_value n ≡ some d → d < 16
hex_value-lt n d e = ground arith

-- A 16-bit code.
abbrev pub IsUint16 : ℕ → Type 0
IsUint16 n = n < 65536

in_range-IsUint16 : (s : String) (m : Option ℕ) (n : ℕ) → in_range s m ≡ gives n → IsUint16 n
in_range-IsUint16 s none n e = cc
in_range-IsUint16 s (some k) n e = ground arith

parse-IsUint16 : (s : String) (n : ℕ) → parse_uint16 s ≡ gives n → IsUint16 n
unfolding parse_uint16
parse-IsUint16 nil n e = cc
parse-IsUint16 (cons c s) n e = in_range-IsUint16 (cons c s) (hex_digits 0 (cons c s)) n e

-- If the words of the format "hex" are accepted, there is one code for each, and each fits in 16
-- bits.
pub hex_ciphers_lem :
    (ws : List String) (cs : List ℕ)
    → hex_ciphers ws ≡ gives cs
    → (length cs ≡ length ws) × All IsUint16 cs
unfolding hex_ciphers
hex_ciphers_lem [] cs e =
    subst (λ xs. (length xs ≡ 0) × All IsUint16 xs) (gives-injective e) (refl, tt)
hex_ciphers_lem (w ∷ ws) cs e =
    let (c, p, e1) = and_then-gives (parse_uint16 w) _ e in
    let (ds, q, e2) = and_then-gives (hex_ciphers ws) _ e1 in
    let (n, a) = hex_ciphers_lem ws ds q in
    subst (λ xs. (length xs ≡ suc (length ws)) × All IsUint16 xs) (gives-injective e2)
      (ap suc n, (parse-IsUint16 w c p, a))

abbrev pair_value : ℕ → Option ℕ → Option ℕ → Option ℕ
pair_value base none n = none
pair_value base (some x) none = none
pair_value base (some x) (some y) = some (x * base + y)

pair_value-some :
    (base : ℕ) (m n : Option ℕ) (h : ℕ)
    → pair_value base m n ≡ some h
    → (x : ℕ) × (y : ℕ) × (m ≡ some x) × (n ≡ some y) × (x * base + y ≡ h)
pair_value-some base none n h e = cc
pair_value-some base (some x) none h e = cc
pair_value-some base (some x) (some y) h e = (x, y, refl, refl, ground (arith, e))

-- The number that two hexadecimal digits write.
abbrev pub byte_value : String → Option ℕ
byte_value (cons a (cons b nil)) = pair_value 16 (hex_value (code a)) (hex_value (code b))
byte_value _ = none

abbrev pub list_value : Option ℕ → Option (List ℕ) → Option (List ℕ)
list_value none ns = none
list_value (some n) none = none
list_value (some n) (some ns) = some (n ∷ ns)

-- The codes that pairs of a high and a low byte write.
abbrev pub codes : List (String × String) → Option (List ℕ)
codes [] = some []
codes ((high, low) ∷ ms) = list_value (pair_value 256 (byte_value high) (byte_value low)) (codes ms)

in_range-gives : (s : String) (n : ℕ) → IsUint16 n → in_range s (some n) ≡ gives n
in_range-gives s n h = ground arith

four_digits :
    (a b c d : Char) (x y z w : ℕ)
    → hex_value (code a) ≡ some x
    → hex_value (code b) ≡ some y
    → hex_value (code c) ≡ some z
    → hex_value (code d) ≡ some w
    → parse_uint16 (cons a (cons b (cons c (cons d nil))))
      ≡ gives ((x * 16 + y) * 256 + (z * 16 + w))
unfolding parse_uint16 hex_digits
four_digits a b c d x y z w ex ey ez ew =
    let bx = hex_value-lt (code a) x ex in
    let by = hex_value-lt (code b) y ey in
    let bz = hex_value-lt (code c) z ez in
    let bw = hex_value-lt (code d) w ew in
    rw (ex, ey, ez, ew, parse_uint16, hex_digits)
      (in_range-gives _ ((((0 * 16 + x) * 16 + y) * 16 + z) * 16 + w) (omega arith)
        ∙ ap gives (omega arith))

byte_value-some :
    (s : String) (n : ℕ)
    → byte_value s ≡ some n
    → (a : Char) × (b : Char) × (s ≡ cons a (cons b nil))
      × (pair_value 16 (hex_value (code a)) (hex_value (code b)) ≡ some n)
byte_value-some nil n e = cc
byte_value-some (cons a nil) n e = cc
byte_value-some (cons a (cons b nil)) n e = (a, b, refl, e)
byte_value-some (cons a (cons b (cons c s))) n e = cc

append-pair : (a b : Char) (s : String) → append (cons a (cons b nil)) s ≡ cons a (cons b s)
append-pair a b s =
    cons-append a (cons b nil) s ∙ ap (cons a) (cons-append b nil s ∙ ap (cons b) (nil-append s))

pair_parses :
    (high low : String) (n : ℕ)
    → pair_value 256 (byte_value high) (byte_value low) ≡ some n
    → parse_uint16 (append high low) ≡ gives n
pair_parses high low n e =
    let (h, l, eh, el, en) = pair_value-some 256 (byte_value high) (byte_value low) n e in
    let (a, b, p, ab) = byte_value-some high h eh in
    let (c, d, q, cd) = byte_value-some low l el in
    let (x, y, ex, ey, exy) = pair_value-some 16 (hex_value (code a)) (hex_value (code b)) h ab in
    let (z, w, ez, ew, ezw) = pair_value-some 16 (hex_value (code c)) (hex_value (code d)) l cd in
    let four = four_digits a b c d x y z w ex ey ez ew in
    let value : (x * 16 + y) * 256 + (z * 16 + w) ≡ n = omega arith in
    ap parse_uint16
      (ap (λ s. append s low) p ∙ ap (append (cons a (cons b nil))) q ∙ append-pair a b _)
    ∙ four
    ∙ ap gives value

list_value-some :
    (m : Option ℕ) (ms : Option (List ℕ)) (cs : List ℕ)
    → list_value m ms ≡ some cs
    → (n : ℕ) × (ns : List ℕ) × (m ≡ some n) × (ms ≡ some ns) × (n ∷ ns ≡ cs)
list_value-some none ms cs e = cc
list_value-some (some n) none cs e = cc
list_value-some (some n) (some ns) cs e = (n, ns, refl, refl, cc)

-- For matches that are pairs of two hexadecimal digits, as the regular expression makes them, the
-- format "openssl" gives the code of each pair, in order; its last error is never returned.
pub openssl_ciphers_lem :
    (ms : List (String × String)) (cs : List ℕ) → codes ms ≡ some cs → openssl_ciphers ms ≡ gives cs
unfolding openssl_ciphers
openssl_ciphers_lem [] cs e = cc
openssl_ciphers_lem ((high, low) ∷ ms) cs e =
    let (n, ns, p, q, r) = list_value-some _ (codes ms) cs e in
    rw (pair_parses high low n p, openssl_ciphers_lem ms ns q) (ap gives r)
