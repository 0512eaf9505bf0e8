-- ===== src/RequestMetrics.antt =====
-- requestmetrics.go: the meters that a metrics specification such as "time,2XX,404" makes, and what
-- they count for a recorded response. The metric library is represented by the samples it receives.
pub mod Laws
mod Tests
use Prim.Native.Char.{Char, code}
use Prim.Native.String.{[] as nil, ◌∷◌ as cons}
use ozone.Prelude.{
  ℕ, suc, ◌+◌, ◌-◌, ◌*◌, ◌<◌, ◌≤◌, String, ◌==◌, Bool, true, false, ◌&&◌, ◌||◌, Option, none, some,
  List, [], ◌∷◌, ◌++◌, if◌then◌else◌, ltb, leb, nat_eq,
}
use ozone.Prelude.Text.{append, split}

-- What a status_meter tests: exactCodeTest, with the number that Atoi made of the text and its sign,
-- or rangeCodeTest.
pub data CodeTest : Type 0 where
  exact : ℕ → CodeTest
  negative : ℕ → CodeTest
  range : ℕ → CodeTest

pub data Meter : Type 0 where
  status_meter : CodeTest → String → Meter
  size_meter : String → Meter
  time_meter : String → Meter

-- What a meter reads of a RecordingResponseWriter: the time since its time stamp, if that is not
-- zero.
pub record Recording : Type 0 where
  pub status : ℕ
  pub size : ℕ
  pub since : Option ℕ

-- A call of Counter.Inc(1), Histogram.Sample or Timer.Sample on the metric of that name.
pub data Sample : Type 0 where
  inc : String → Sample
  sample : String → ℕ → Sample

-- exactCodeTest; a status code is not negative.
unfoldable pub exact_code_test : ℕ → ℕ → Bool
exact_code_test val code = nat_eq val code

-- rangeCodeTest: `diff` is not negative, and below 100.
unfoldable pub range_code_test : ℕ → ℕ → Bool
range_code_test val code = leb val code && ltb (code - val) 100

unfoldable pub run_test : CodeTest → ℕ → Bool
unfolding exact_code_test range_code_test
run_test (exact val) code = exact_code_test val code
run_test (negative val) code = false
run_test (range val) code = range_code_test val code

-- The three Measure methods.
unfoldable pub measure : Meter → Recording → List Sample
unfolding run_test
measure (status_meter t name) rec = if run_test t rec.status then inc name ∷ [] else []
measure (size_meter name) rec = sample name rec.size ∷ []
measure (time_meter name) rec = elim rec.since [ none ↦ [] | some t ↦ sample name t ∷ [] ]

abbrev pub is_digit : ℕ → Bool
is_digit n = leb b'0' n && leb n b'9'

abbrev pub is_x : ℕ → Bool
is_x n = nat_eq n b'x' || nat_eq n b'X'

-- regexp.MatchString("\\d\\d\\d", spc) and ("\\d[xX]{2}", spc): anywhere in the text.
abbrev starts_ddd : String → Bool
starts_ddd (cons a (cons b (cons c s))) =
    is_digit (code a) && is_digit (code b) && is_digit (code c)
starts_ddd _ = false

unfoldable pub matches_ddd : String → Bool
matches_ddd nil = false
matches_ddd (cons a s) = starts_ddd (cons a s) || matches_ddd s

abbrev starts_dxx : String → Bool
starts_dxx (cons a (cons b (cons c s))) = is_digit (code a) && is_x (code b) && is_x (code c)
starts_dxx _ = false

unfoldable pub matches_dxx : String → Bool
matches_dxx nil = false
matches_dxx (cons a s) = starts_dxx (cons a s) || matches_dxx s

-- strconv.Atoi with its error ignored: 0 for what is no number, and the largest or the smallest
-- int64 for what is out of range.
unfoldable pub digits_value : ℕ → String → Option ℕ
digits_value acc nil = some acc
digits_value acc (cons c s) = elim (is_digit (code c)) [
  | true ↦ digits_value (acc * 10 + (code c - b'0')) s
  | false ↦ none
]

abbrev max_int64 : ℕ
max_int64 = 9223372036854775807

abbrev clamp : ℕ → ℕ → ℕ
clamp limit n = if leb n limit then n else limit

abbrev non_empty_value : String → Option ℕ
non_empty_value nil = none
non_empty_value (cons c s) = digits_value 0 (cons c s)

abbrev exact_of : Option ℕ → CodeTest
exact_of none = exact 0
exact_of (some n) = exact (clamp max_int64 n)

abbrev negative_of : Option ℕ → CodeTest
negative_of none = exact 0
negative_of (some n) = if nat_eq n 0 then exact 0 else negative (clamp (suc max_int64) n)

unfoldable pub atoi_test : String → CodeTest
unfolding digits_value
atoi_test nil = exact 0
atoi_test (cons c s) =
    if nat_eq (code c) b'-'
    then negative_of (non_empty_value s)
    else if nat_eq (code c) b'+'
    then exact_of (non_empty_value s)
    else exact_of (digits_value 0 (cons c s))

-- strconv.Atoi(spc[0:1]): the first byte, 0 if it is no digit.
abbrev first_digit : String → ℕ
first_digit nil = 0
first_digit (cons c s) = if is_digit (code c) then code c - b'0' else 0

-- One round of the loop of metricsFunction.
unfoldable pub meters_for : String → String → List Meter
unfolding matches_ddd matches_dxx atoi_test
meters_for name spc =
    if spc == "time"
    then time_meter (append name ".resp-time") ∷ []
    else if spc == "size"
    then size_meter (append name ".resp-size") ∷ []
    else if matches_ddd spc
    then status_meter (atoi_test spc) (append name (append ".code." spc)) ∷ []
    else if matches_dxx spc
    then status_meter (range (first_digit spc * 100)) (append name (append ".code." spc)) ∷ []
    else []

unfoldable pub meters_of : String → List String → List Meter
unfolding meters_for
meters_of name [] = []
meters_of name (spc ∷ spcs) = meters_for name spc ++ meters_of name spcs

unfoldable pub metrics_function : String → String → List Meter
unfolding meters_of
metrics_function name spec = meters_of name (split spec b',')

-- The function that metricsFunction returns.
unfoldable pub audit : List Meter → Recording → List Sample
unfolding measure
audit [] rec = []
audit (m ∷ ms) rec = measure m rec ++ audit ms rec
