-- ===== src/Prelude/Outcome.antt =====
-- A call that returns, panics, or runs out of the fuel that its model is given.
use mathlib.Core.Path.{◌≡◌, refl, subst}

pub data Outcome {ℓ} (A : Type ℓ) : Type ℓ where
  returns : A → Outcome A
  panics : Outcome A
  exhausted : Outcome A

infixl 5 ◌>>=◌
abbrev pub ◌>>=◌ {ℓ κ} : {A : Type ℓ} {B : Type κ} → Outcome A → (A → Outcome B) → Outcome B
returns a >>= f = f a
panics >>= f = panics
exhausted >>= f = exhausted

-- The call ends, by a return or a panic, and what it returns satisfies the predicate.
abbrev pub Ends {ℓ} : {A : Type ℓ} → (A → Type 0) → Outcome A → Type 0
Ends P (returns a) = P a
Ends P panics = Unit
Ends P exhausted = ⊥

pub Ends->>= {ℓ κ} :
    {A : Type ℓ} {B : Type κ} (P : A → Type 0) (Q : B → Type 0) (m : Outcome A) (f : A → Outcome B)
    → Ends P m
    → ((a : A) → P a → Ends Q (f a))
    → Ends Q (m >>= f)
Ends->>= P Q (returns a) f h k = k a h
Ends->>= P Q panics f h k = tt
Ends->>= P Q exhausted f h k = h

pub Ends-× {ℓ} :
    {A : Type ℓ} (P Q : A → Type 0) (m : Outcome A) → Ends P m → Ends Q m → Ends (λ a. P a × Q a) m
Ends-× P Q (returns a) p q = (p, q)
Ends-× P Q panics p q = tt
Ends-× P Q exhausted p q = p

pub Ends-map {ℓ} :
    {A : Type ℓ} (P Q : A → Type 0) (m : Outcome A) → ((a : A) → P a → Q a) → Ends P m → Ends Q m
Ends-map P Q (returns a) f p = f a p
Ends-map P Q panics f p = tt
Ends-map P Q exhausted f p = p

pub >>=-eq-returns {ℓ κ} :
    {A : Type ℓ} {B : Type κ} (m : Outcome A) (f : A → Outcome B) {b : B}
    → (m >>= f) ≡ returns b
    → (a : A) × (m ≡ returns a) × (f a ≡ returns b)
>>=-eq-returns (returns a) f h = (a, refl, h)
>>=-eq-returns panics f h = cc
>>=-eq-returns exhausted f h = cc

-- What a call that ends has returned satisfies the predicate.
pub Ends-returns {ℓ} :
    {A : Type ℓ} (P : A → Type 0) (m : Outcome A) {a : A} → Ends P m → m ≡ returns a → P a
Ends-returns P m {a} p e = subst (Ends P) e p

-- What the call returns, if it returns, satisfies the predicate.
abbrev pub Yields {ℓ} : {A : Type ℓ} → (A → Type 0) → Outcome A → Type 0
Yields P (returns a) = P a
Yields P panics = Unit
Yields P exhausted = Unit

pub Yields->>= {ℓ κ} :
    {A : Type ℓ} {B : Type κ} (Q : B → Type 0) (m : Outcome A) (f : A → Outcome B)
    → ((a : A) → Yields Q (f a))
    → Yields Q (m >>= f)
Yields->>= Q (returns a) f k = k a
Yields->>= Q panics f k = tt
Yields->>= Q exhausted f k = tt

pub Yields-returns {ℓ} :
    {A : Type ℓ} (P : A → Type 0) (m : Outcome A) {a : A} → Yields P m → m ≡ returns a → P a
Yields-returns P m p e = subst (Yields P) e p

-- The call returns, and what it returns satisfies the predicate.
abbrev pub Returns {ℓ} : {A : Type ℓ} → (A → Type 0) → Outcome A → Type 0
Returns P (returns a) = P a
Returns P panics = ⊥
Returns P exhausted = ⊥

pub Returns->>= {ℓ κ} :
    {A : Type ℓ} {B : Type κ} (P : A → Type 0) (Q : B → Type 0) (m : Outcome A) (f : A → Outcome B)
    → Returns P m
    → ((a : A) → P a → Returns Q (f a))
    → Returns Q (m >>= f)
Returns->>= P Q (returns a) f h k = k a h
Returns->>= P Q panics f h k = absurd h
Returns->>= P Q exhausted f h k = absurd h

pub Returns-map {ℓ} :
    {A : Type ℓ} (P Q : A → Type 0) (m : Outcome A)
    → ((a : A) → P a → Q a)
    → Returns P m
    → Returns Q m
Returns-map P Q (returns a) f p = f a p
Returns-map P Q panics f p = p
Returns-map P Q exhausted f p = p

pub Returns-eq {ℓ} :
    {A : Type ℓ} (P : A → Type 0) (m : Outcome A) → Returns P m → (a : A) × (m ≡ returns a) × P a
Returns-eq P (returns a) p = (a, refl, p)
Returns-eq P panics p = absurd p
Returns-eq P exhausted p = absurd p
