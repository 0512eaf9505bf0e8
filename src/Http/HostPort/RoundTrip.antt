-- ===== src/Http/HostPort/RoundTrip.antt =====
-- Splitting what was joined.
use Prim.Native.Char.{Char, code}
use Prim.Native.String.{[] as nil, ◌∷◌ as cons}
use text.Mathlib.TextLemmas.{nil-append, cons-append, append_assoc}
use ozone.Prelude.{
  ℕ, String, ◌≡◌, refl, sym, ap, ◌∙◌, true, false, ◌||◌, none, some, nat_eq, arith, Bool-cases, inl,
  inr,
}
use ozone.Prelude.Text.{append}
use ozone.Http.HostPort.{
  contains, cut_first, cut_last, plain_parts, split_host_port, join_host_port,
}

-- The cut at the first place of the character.
cut_first-append :
    (n : ℕ) (a : String) (c : Char) (s : String)
    → contains n a ≡ false
    → nat_eq (code c) n ≡ true
    → cut_first n (append a (cons c s)) ≡ some (a, s)
unfolding cut_first contains
cut_first-append n nil c s h e = rw nil-append (rw e refl)
cut_first-append n (cons d a) c s h e =
    let deeper = cut_first-append n a c s (ground arith) e in
    let other : nat_eq (code d) n ≡ false = ground arith in rw (cons-append, other, deeper) refl

pub contains-append :
    (n : ℕ) (a s : String) → contains n (append a s) ≡ (contains n a || contains n s)
unfolding contains
contains-append n nil s = rw nil-append refl
contains-append n (cons c a) s = rw cons-append (ground (arith, contains-append n a s))

-- The cut at the last place.
cut_last-append :
    (n : ℕ) (a : String) (c : Char) (s : String)
    → contains n s ≡ false
    → nat_eq (code c) n ≡ true
    → cut_last n (append a (cons c s)) ≡ some (a, s)
unfolding cut_last contains
cut_last-append n nil c s h e = rw (nil-append, e, h) refl
cut_last-append n (cons d a) c s h e =
    let deeper = cut_last-append n a c s h e in
    let more : contains n (append a (cons c s)) ≡ true =
      contains-append n a (cons c s) ∙ ground arith in
    rw (cons-append, deeper, more)
      (elim (Bool-cases (nat_eq (code d) n)) [ inl t ↦ rw t refl | inr f ↦ rw f refl ])

cut_last-none : (n : ℕ) (s : String) → contains n s ≡ false → cut_last n s ≡ none
unfolding cut_last contains
cut_last-none n nil h = refl
cut_last-none n (cons c s) h = ground (arith, cut_last-none n s)

colon-append : (s : String) → append ":" s ≡ cons ":" s
colon-append s = cons-append ":" nil s ∙ ap (cons ":") (nil-append s)

closing-append : (s : String) → append "]:" s ≡ cons "]" (cons ":" s)
closing-append s = cons-append "]" ":" s ∙ ap (cons "]") (colon-append s)

opening-append : (s : String) → append "[" s ≡ cons "[" s
opening-append s = cons-append "[" nil s ∙ ap (cons "[") (nil-append s)

-- A bracketed host with a port.
pub bracketed-split :
    (h port : String)
    → contains b']' h ≡ false
    → contains b'[' h ≡ false
    → contains b':' port ≡ false
    → contains b'[' port ≡ false
    → contains b']' port ≡ false
    → split_host_port (append "[" (append h (append "]:" port))) ≡ some (h, port)
unfolding split_host_port
bracketed-split h port h0 h1 p0 p1 p2 =
    rw
      (
        closing-append,
        opening-append,
        cut_first-append b']' h "]" (cons ":" port) h0 refl,
        p0,
        h1,
        p1,
        p2,
      )
      refl

plain_parts-some :
    (host port : String)
    → contains b':' host ≡ false
    → contains b'[' host ≡ false
    → contains b']' host ≡ false
    → contains b'[' port ≡ false
    → contains b']' port ≡ false
    → plain_parts (some (host, port)) ≡ some (host, port)
plain_parts-some host port h0 h1 h2 p1 p2 = rw (h0, h1, h2, p1, p2) refl

-- A plain host with a port.
pub plain-split :
    (h port : String)
    → contains b':' h ≡ false
    → contains b'[' h ≡ false
    → contains b']' h ≡ false
    → contains b':' port ≡ false
    → contains b'[' port ≡ false
    → contains b']' port ≡ false
    → split_host_port (append h (append ":" port)) ≡ some (h, port)
unfolding split_host_port contains cut_last
plain-split nil port h0 h1 h2 p0 p1 p2 = rw (colon-append, nil-append, p0, p1, p2) refl
plain-split (cons c h) port h0 h1 h2 p0 p1 p2 =
    let found : cut_last b':' (cons c (append h (cons ":" port))) ≡ some (cons c h, port) =
      ap (cut_last b':') (sym (cons-append c h (cons ":" port)))
      ∙ cut_last-append b':' (cons c h) ":" port p0 refl in
    let other : nat_eq (code c) b'[' ≡ false = ground arith in
    rw (colon-append, cons-append, other, found) (plain_parts-some (cons c h) port h0 h1 h2 p1 p2)

-- A host without brackets and a port without colons and brackets split as they were joined.
pub split_host_port-join_host_port :
    (h port : String)
    → contains b'[' h ≡ false
    → contains b']' h ≡ false
    → contains b':' port ≡ false
    → contains b'[' port ≡ false
    → contains b']' port ≡ false
    → split_host_port (join_host_port h port) ≡ some (h, port)
unfolding join_host_port
split_host_port-join_host_port h port h1 h2 p0 p1 p2 = elim (Bool-cases (contains b':' h)) [
  | inl t ↦ rw t (bracketed-split h port h2 h1 p0 p1 p2)
  | inr f ↦ rw f (plain-split h port f h1 h2 p0 p1 p2)
]

-- A host without a colon does not split.
pub split_host_port-none :
    (h : String) → contains b':' h ≡ false → contains b'[' h ≡ false → split_host_port h ≡ none
unfolding split_host_port contains
split_host_port-none nil h0 h1 = refl
split_host_port-none (cons c h) h0 h1 =
    let other : nat_eq (code c) b'[' ≡ false = ground arith in
    rw (other, cut_last-none b':' (cons c h) h0) refl

-- A bracketed host splits only if a port follows.
pub split_host_port-brackets :
    (h : String) → contains b']' h ≡ false → split_host_port (append "[" (append h "]")) ≡ none
unfolding split_host_port
split_host_port-brackets h h2 = rw (opening-append, cut_first-append b']' h "]" "" h2 refl) refl

closed-append :
    (h t : String) → append (append "[" (append h "]")) t ≡ append (cons "[" h) (cons "]" t)
closed-append h t =
    ap (λ s. append s t) (opening-append (append h "]") ∙ sym (cons-append "[" h "]"))
    ∙ append_assoc (cons "[" h) "]" t
    ∙ ap (append (cons "[" h)) (cons-append "]" "" t ∙ ap (cons "]") (nil-append t))

-- A host in brackets twice does not split.
pub split_host_port-twice :
    (h port : String)
    → contains b']' h ≡ false
    → split_host_port (append "[" (append (append "[" (append h "]")) (append "]:" port))) ≡ none
unfolding split_host_port contains
split_host_port-twice h port h2 =
    rw
      (
        closing-append,
        opening-append,
        closed-append,
        cut_first-append b']' (cons "[" h) "]" (cons "]" (cons ":" port)) h2 refl,
      )
      refl
