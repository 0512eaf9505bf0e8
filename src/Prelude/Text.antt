-- ===== src/Prelude/Text.antt =====
-- The functions of Go's package strings that the program calls, over texts.
pub mod Laws
use Prim.Native.Nat.{ℕ, zero, suc, ◌/◌, ◌%◌}
use Prim.Native.Char.{Char, code}
use Prim.Native.String
use Prim.Native.String.{String, [], ◌∷◌}
use mathlib.Core.Bool.{Bool, true, false, not, ◌&&◌, ◌||◌}
use mathlib.Core.List
use mathlib.Core.List.{List}
use ozone.Prelude.Tests.{leb, ltb, nat_eq, if◌then◌else◌}

abbrev pub append : String → String → String
append s t = String.◌++◌ s t

abbrev pub is_empty : String → Bool
is_empty [] = true
is_empty (c ∷ s) = false

-- strings.HasPrefix with a separator of one character
unfoldable pub has_prefix : ℕ → String → Bool
has_prefix sep [] = false
has_prefix sep (c ∷ s) = nat_eq (code c) sep

-- strings.HasSuffix with a separator of one character
unfoldable pub has_suffix : ℕ → String → Bool
has_suffix sep [] = false
has_suffix sep (c ∷ []) = nat_eq (code c) sep
has_suffix sep (c ∷ (d ∷ s)) = has_suffix sep (d ∷ s)

-- strings.Split with a separator of one character: never an empty list.
unfoldable pub split_from : ℕ → String → String → List String
split_from sep cur [] = List.◌∷◌ cur List.[]
split_from sep cur (c ∷ s) = elim (nat_eq (code c) sep) [
  | true ↦ List.◌∷◌ cur (split_from sep "" s)
  | false ↦ split_from sep (append cur (c ∷ [])) s
]

unfoldable pub split : String → ℕ → List String
unfolding split_from
split s sep = split_from sep "" s

unfoldable pub join : List String → String → String
join List.[] sep = ""
join (List.◌∷◌ s List.[]) sep = s
join (List.◌∷◌ s (List.◌∷◌ t ts)) sep = append s (append sep (join (List.◌∷◌ t ts) sep))

-- unicode.IsSpace, on the ASCII range
abbrev is_space : ℕ → Bool
is_space n = (leb 9 n && leb n 13) || nat_eq n 32

unfoldable pub trim_left : String → String
trim_left [] = []
trim_left (c ∷ s) = elim (is_space (code c)) [ true ↦ trim_left s | false ↦ c ∷ s ]

-- A space is kept only if a character that is none follows it.
abbrev keep : Char → String → String
keep c [] = if is_space (code c) then [] else c ∷ []
keep c (d ∷ s) = c ∷ (d ∷ s)

unfoldable pub trim_right : String → String
trim_right [] = []
trim_right (c ∷ s) = keep c (trim_right s)

unfoldable pub trim_space : String → String
unfolding trim_left trim_right
trim_space s = trim_right (trim_left s)

-- The character of `to` at the place where `from` has `c`.
unfoldable pub translate : String → String → Char → Char
translate [] to c = c
translate (a ∷ from) [] c = c
translate (a ∷ from) (b ∷ to) c = if nat_eq (code a) (code c) then b else translate from to c

abbrev pub lowers : String
lowers = "abcdefghijklmnopqrstuvwxyz"

abbrev pub uppers : String
uppers = "ABCDEFGHIJKLMNOPQRSTUVWXYZ"

-- The text of one digit.
abbrev pub translate_digit : String → ℕ → String
translate_digit [] n = ""
translate_digit (c ∷ s) zero = c ∷ []
translate_digit (c ∷ s) (suc n) = translate_digit s n

abbrev pub digit_text : ℕ → String
digit_text n = translate_digit "0123456789" n

unfoldable pub decimal_from : ℕ → ℕ → String
decimal_from zero n = ""
decimal_from (suc fuel) n =
    let more = decimal_from fuel (n / 10) in
    if ltb n 10 then digit_text n else append more (digit_text (n % 10))

-- strconv.Itoa of a number that is not negative
unfoldable pub decimal : ℕ → String
unfolding decimal_from
decimal n = decimal_from (suc n) n
