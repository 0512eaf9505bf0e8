-- ===== src/Prelude/Text/Laws.antt =====
-- Laws of `split` and `join`.
use Prim.Native.Nat.{ℕ}
use Prim.Native.Char.{Char, code}
use Prim.Native.String.{String, [], ◌∷◌}
use mathlib.Core.Path.{◌≡◌, refl, sym, ap, ◌∙◌}
use mathlib.Core.Bool.{Bool, true, false, not, ◌&&◌}
use mathlib.Core.Logic.{inl, inr}
use mathlib.Core.List.{List}
use native.Mathlib.Omega.{arith}
use text.Mathlib.TextEquality.{Char-path}
use text.Mathlib.TextLemmas.{append_assoc, append-nil, nil-append, cons-append}
use ozone.Prelude.Tests.{nat_eq, Bool-cases}
use ozone.Prelude.Text.{append, split, split_from, join}

-- The text has no separator.
abbrev pub free_of : ℕ → String → Bool
free_of sep [] = true
free_of sep (c ∷ s) = not (nat_eq (code c) sep) && free_of sep s

append-push :
    (cur : String) (c : Char) (s : String) → append (append cur (c ∷ [])) s ≡ append cur (c ∷ s)
append-push cur c s =
    append_assoc cur (c ∷ []) s
    ∙ ap (append cur) (cons-append c [] s ∙ ap (λ t. c ∷ t) (nil-append s))

split_from-sep :
    (sep : ℕ) (cur : String) (c : Char) (s : String)
    → nat_eq (code c) sep ≡ true
    → split_from sep cur (c ∷ s) ≡ List.◌∷◌ cur (split_from sep "" s)
unfolding split_from
split_from-sep sep cur c s e = rw (e, split_from)

split_from_other :
    (sep : ℕ) (cur : String) (c : Char) (s : String)
    → nat_eq (code c) sep ≡ false
    → split_from sep cur (c ∷ s) ≡ split_from sep (append cur (c ∷ [])) s
unfolding split_from
split_from_other sep cur c s e = rw (e, split_from)

split_from_free :
    (sep : ℕ) (cur s : String)
    → free_of sep s ≡ true
    → split_from sep cur s ≡ List.◌∷◌ (append cur s) List.[]
unfolding split_from
split_from_free sep cur [] h = ap (λ t. List.◌∷◌ t List.[]) (sym (append-nil cur))
split_from_free sep cur (c ∷ s) h = elim (Bool-cases (nat_eq (code c) sep)) [
  | inl e ↦ absurd (ground arith)
  | inr e ↦
      split_from_other sep cur c s e
      ∙ (split_from_free sep (append cur (c ∷ [])) s (ground arith)
          ∙ ap (λ t. List.◌∷◌ t List.[]) (append-push cur c s))
]

-- A text without a separator is its only part.
pub split_of_free : (s : String) (sep : ℕ) → free_of sep s ≡ true → split s sep ≡ List.◌∷◌ s List.[]
unfolding split
split_of_free s sep h = split_from_free sep [] s h ∙ ap (λ t. List.◌∷◌ t List.[]) (nil-append s)

abbrev NonEmpty : List String → Type 0
NonEmpty List.[] = ⊥
NonEmpty (List.◌∷◌ s ss) = Unit

split_from-NonEmpty : (sep : ℕ) (cur s : String) → NonEmpty (split_from sep cur s)
split_from-NonEmpty sep cur [] = unfold split_from in tt
split_from-NonEmpty sep cur (c ∷ s) = elim (Bool-cases (nat_eq (code c) sep)) [
  | inl e ↦ rw (split_from-sep sep cur c s e) tt
  | inr e ↦ rw (split_from_other sep cur c s e) (split_from-NonEmpty sep (append cur (c ∷ [])) s)
]

join-cons :
    (s : String) (ss : List String) (sep : String)
    → NonEmpty ss
    → join (List.◌∷◌ s ss) sep ≡ append s (append sep (join ss sep))
unfolding join
join-cons s List.[] sep h = elim h [ ]
join-cons s (List.◌∷◌ t ts) sep h = refl

Char-eq : (c d : Char) → nat_eq (code c) (code d) ≡ true → c ≡ d
Char-eq c d h = Char-path c d (ground arith)

-- Joining the parts gives back the text.
join-split_from :
    (d : Char) (cur s : String) → join (split_from (code d) cur s) (d ∷ []) ≡ append cur s
join-split_from d cur [] = unfold split_from join in sym (append-nil cur)
join-split_from d cur (c ∷ s) = elim (Bool-cases (nat_eq (code c) (code d))) [
  | inl e ↦
      ap (λ ss. join ss (d ∷ [])) (split_from-sep (code d) cur c s e)
      ∙ join-cons cur (split_from (code d) [] s) (d ∷ []) (split_from-NonEmpty (code d) [] s)
      ∙ ap (append cur) (
          ap (append (d ∷ [])) (join-split_from d [] s ∙ nil-append s)
          ∙ cons-append d [] s
          ∙ ap (λ t. d ∷ t) (nil-append s)
          ∙ ap (λ x. x ∷ s) (sym (Char-eq c d e)))
  | inr e ↦
      ap (λ ss. join ss (d ∷ [])) (split_from_other (code d) cur c s e)
      ∙ join-split_from d (append cur (c ∷ [])) s
      ∙ append-push cur c s
]

pub join-split : (s : String) (d : Char) → join (split s (code d)) (d ∷ []) ≡ s
unfolding split
join-split s d = join-split_from d [] s ∙ nil-append s
