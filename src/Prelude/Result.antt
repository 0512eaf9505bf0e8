-- ===== src/Prelude/Result.antt =====
-- The results of a function that returns an error: the error's text, or the value.
use Prim.Native.String.{String}
use mathlib.Core.Path.{◌≡◌, refl}
use ozone.Prelude.Outcome.{Outcome, returns, panics, exhausted, ◌>>=◌}

pub data Result {ℓ} (A : Type ℓ) : Type ℓ where
  fails : String → Result A
  gives : A → Result A

abbrev pub and_then {ℓ κ} : {A : Type ℓ} {B : Type κ} → Result A → (A → Result B) → Result B
and_then (fails e) f = fails e
and_then (gives a) f = f a

pub and_then-gives {ℓ κ} :
    {A : Type ℓ} {B : Type κ} (m : Result A) (f : A → Result B) {b : B}
    → and_then m f ≡ gives b
    → (a : A) × (m ≡ gives a) × (f a ≡ gives b)
and_then-gives (fails e) f h = cc
and_then-gives (gives a) f h = (a, refl, h)

pub gives-injective {ℓ} : {A : Type ℓ} {a b : A} → gives a ≡ gives b → a ≡ b
gives-injective e = cc

-- A call that can panic, and whose result can be an error, after which the function returns it.
abbrev pub or_fail {ℓ κ} :
    {A : Type ℓ} {B : Type κ} → Result A → (A → Outcome (Result B)) → Outcome (Result B)
or_fail (fails e) f = returns (fails e)
or_fail (gives a) f = f a

abbrev pub try {ℓ κ} :
    {A : Type ℓ} {B : Type κ} → Outcome (Result A) → (A → Outcome (Result B)) → Outcome (Result B)
try m f = m >>= λ r. or_fail r f

pub or_fail-gives {ℓ κ} :
    {A : Type ℓ} {B : Type κ} (m : Result A) (f : A → Outcome (Result B)) {b : B}
    → or_fail m f ≡ returns (gives b)
    → (a : A) × (m ≡ gives a) × (f a ≡ returns (gives b))
or_fail-gives (fails e) f h = cc
or_fail-gives (gives a) f h = (a, refl, h)

pub try-gives {ℓ κ} :
    {A : Type ℓ} {B : Type κ} (m : Outcome (Result A)) (f : A → Outcome (Result B)) {b : B}
    → try m f ≡ returns (gives b)
    → (a : A) × (m ≡ returns (gives a)) × (f a ≡ returns (gives b))
try-gives (returns (fails e)) f h = cc
try-gives (returns (gives a)) f h = (a, refl, h)
try-gives panics f h = cc
try-gives exhausted f h = cc

pub and_then-cong {ℓ κ} :
    {A : Type ℓ} {B : Type κ} (m : Result A) {f g : A → Result B}
    → ((a : A) → m ≡ gives a → f a ≡ g a)
    → and_then m f ≡ and_then m g
and_then-cong (fails e) h = refl
and_then-cong (gives a) h = h a refl

pub or_fail-cong {ℓ κ} :
    {A : Type ℓ} {B : Type κ} (m : Result A) {f g : A → Outcome (Result B)}
    → ((a : A) → m ≡ gives a → f a ≡ g a)
    → or_fail m f ≡ or_fail m g
or_fail-cong (fails e) h = refl
or_fail-cong (gives a) h = h a refl

pub try-or_fail {ℓ κ μ} :
    {A : Type ℓ} {B : Type κ} {C : Type μ} (m : Result A) (f : A → Outcome (Result B))
    (g : B → Outcome (Result C))
    → try (or_fail m f) g ≡ or_fail m (λ a. try (f a) g)
try-or_fail (fails e) f g = refl
try-or_fail (gives a) f g = refl

pub try-try {ℓ κ μ} :
    {A : Type ℓ} {B : Type κ} {C : Type μ} (m : Outcome (Result A)) (f : A → Outcome (Result B))
    (g : B → Outcome (Result C))
    → try (try m f) g ≡ try m (λ a. try (f a) g)
try-try (returns r) f g = try-or_fail r f g
try-try panics f g = refl
try-try exhausted f g = refl

pub returns-injective {ℓ} : {A : Type ℓ} {a b : A} → returns a ≡ returns b → a ≡ b
returns-injective e = cc
