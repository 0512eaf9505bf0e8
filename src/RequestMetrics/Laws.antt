-- ===== src/RequestMetrics/Laws.antt =====
-- What the meters of a specification count.
use Prim.Native.Char.{Char, code}
use Prim.Native.String.{[] as nil, ◌∷◌ as cons}
use ozone.Prelude.{
  ℕ, ◌+◌, ◌-◌, ◌*◌, ◌<◌, ◌≤◌, ◌≡◌, refl, ◌↔◌, String, ◌==◌, Bool, true, false, List, [], ◌∷◌, ◌++◌,
  append_assoc, if◌then◌else◌, nat_eq, arith, sym, ap, ◌∙◌, String-cases, inl, inr, ◌/◌,
}
use ozone.Prelude.Text.{append}
use ozone.Prelude.Text.Laws.{split_of_free}
use ozone.RequestMetrics.{
  Meter, status_meter, Recording, inc, range, exact, range_code_test, exact_code_test, run_test,
  measure, matches_ddd, matches_dxx, atoi_test, meters_for, meters_of, metrics_function, audit,
  is_digit, is_x,
}

-- A range test for `val` passes exactly the codes from `val` to `val + 99`.
pub range_code_test_iff :
    (val code : ℕ) → (range_code_test val code ≡ true) ↔ ((val ≤ code) × (code < val + 100))
unfolding range_code_test
range_code_test_iff val code = ground arith

pub audit-append :
    (ms ns : List Meter) (rec : Recording) → audit (ms ++ ns) rec ≡ audit ms rec ++ audit ns rec
unfolding audit
audit-append [] ns rec = refl
audit-append (m ∷ ms) ns rec =
    ap (λ t. measure m rec ++ t) (audit-append ms ns rec)
    ∙ sym (append_assoc (measure m rec) (audit ms rec) (audit ns rec))

abbrev head_is_digit : String → Bool
head_is_digit nil = false
head_is_digit (cons c s) = is_digit (code c)

-- A specification that starts with a digit is neither "time" nor "size".
not_word :
    (s word : String) → head_is_digit s ≡ true → head_is_digit word ≡ false → (s == word) ≡ false
not_word s word h k = elim (String-cases s word) [ inl e ↦ cc (ap head_is_digit e) | inr e ↦ e ]

module _ (a b c : Char) where
  -- A specification of three characters.
  abbrev pub three : String
  three = cons a (cons b (cons c nil))

  -- A digit and two letters x, of either case.
  abbrev pub IsClass : Type 0
  IsClass = (is_digit (code a) ≡ true) × (is_x (code b) ≡ true) × (is_x (code c) ≡ true)

  -- Three digits.
  abbrev pub IsCode : Type 0
  IsCode = (is_digit (code a) ≡ true) × (is_digit (code b) ≡ true) × (is_digit (code c) ≡ true)

  abbrev pub code_value : ℕ
  code_value = (code a - b'0') * 100 + (code b - b'0') * 10 + (code c - b'0')

  matches_class : IsClass → (matches_ddd three ≡ false) × (matches_dxx three ≡ true)
  unfolding matches_ddd matches_dxx
  matches_class (ha, hb, hc) = ground arith

  matches_code : IsCode → matches_ddd three ≡ true
  unfolding matches_ddd
  matches_code (ha, hb, hc) = ground arith

  atoi_of_code : IsCode → atoi_test three ≡ exact code_value
  unfolding atoi_test
  atoi_of_code (ha, hb, hc) = ground arith

  meters_for_class :
      (name : String)
      → IsClass
      → meters_for name three
        ≡ status_meter (range ((code a - b'0') * 100)) (append name (append ".code." three)) ∷ []
  unfolding meters_for
  meters_for_class name h =
      rw
        (
          not_word three "time" h.0 refl,
          not_word three "size" h.0 refl,
          (matches_class h).0,
          (matches_class h).1,
          h.0,
        )
        refl

  meters_for_code :
      (name : String)
      → IsCode
      → meters_for name three
        ≡ status_meter (exact code_value) (append name (append ".code." three)) ∷ []
  unfolding meters_for
  meters_for_code name h =
      rw
        (
          not_word three "time" h.0 refl,
          not_word three "size" h.0 refl,
          matches_code h,
          atoi_of_code h,
        )
        refl

  -- The metrics function of a class such as "4XX" counts a response once exactly if the first digit
  -- of its three-digit status is the class, and no response otherwise.
  pub metrics_function_class :
      (name : String) (rec : Recording)
      → IsClass
      → audit (metrics_function name three) rec ≡ (
          if nat_eq (rec.status / 100) (code a - b'0')
          then inc (append name (append ".code." three)) ∷ []
          else [])
  unfolding metrics_function audit measure run_test range_code_test meters_of
  metrics_function_class name rec h =
      rw (split_of_free three b',' (ground arith), meters_for_class name h) (ground arith)

  -- The metrics function of a code such as "404" counts exactly the responses with that status.
  pub metrics_function_code :
      (name : String) (rec : Recording)
      → IsCode
      → audit (metrics_function name three) rec ≡ (
          if nat_eq rec.status code_value
          then inc (append name (append ".code." three)) ∷ []
          else [])
  unfolding metrics_function audit measure run_test exact_code_test meters_of
  metrics_function_code name rec h =
      rw (split_of_free three b',' (ground arith), meters_for_code name h) (ground arith)
