-- ===== src/Proxy/Hop/Request.antt =====
-- The headers of the request that goes to the backend.
use ozone.Prelude.{
  String, ◌==◌, ◌≡◌, refl, sym, ap, ◌∙◌, inl, inr, Bool, true, false, not, ◌&&◌, ◌||◌, Bool-cases,
  String-cases, List, [], ◌∷◌, arith, if◌then◌else◌,
}
use ozone.Prelude.Text.{is_empty, split, trim_space}
use ozone.Http.Header.{Header, canonical, values, get, del}
use ozone.Http.Header.Laws.{values-del}
use ozone.Rproxymod.{Exchange, out_header, ensure_writable_header}
use ozone.Rproxymod.Laws.{IsCanonical, values-ensure, out_header-write_out, write_out-in_header}
use ozone.Proxy.Hop.{hop_headers, del_out, del_named, strip_connection, del_present, strip_request}
use ozone.Proxy.Hop.Laws.{listed, named, named-empty}

values-del_out :
    (k j : String) (x : Exchange)
    → IsCanonical x.in_header
    → values j (out_header (del_out k x))
      ≡ (if canonical k == canonical j then [] else values j (out_header x))
unfolding del_out
values-del_out k j x i =
    ap (values j) (out_header-write_out (del k) (ensure_writable_header x))
    ∙ values-del k j (out_header (ensure_writable_header x))
    ∙ ap (λ (v : List String). if canonical k == canonical j then [] else v) (values-ensure j x i)

del_out-IsCanonical :
    (k : String) (x : Exchange) → IsCanonical x.in_header → IsCanonical (del_out k x).in_header
unfolding del_out
del_out-IsCanonical k x i = rw (write_out-in_header (del k) x) i

-- A guarded deletion, as both loops make it.
abbrev unless : Bool → String → Exchange → Exchange
unless b k x = if b then x else del_out k x

unless-IsCanonical :
    (b : Bool) (k : String) (x : Exchange)
    → IsCanonical x.in_header
    → IsCanonical (unless b k x).in_header
unless-IsCanonical true k x i = i
unless-IsCanonical false k x i = del_out-IsCanonical k x i

values-unless :
    (b : Bool) (k j : String) (x : Exchange)
    → IsCanonical x.in_header
    → values j (out_header (unless b k x))
      ≡ (if (if b then false else canonical k == canonical j) then [] else values j (out_header x))
values-unless true k j x i = refl
values-unless false k j x i = values-del_out k j x i

swap_if {ℓ} :
    {A : Type ℓ} (b c : Bool) (x y : A)
    → (if c then x else (if b then x else y)) ≡ (if b || c then x else y)
swap_if true true x y = refl
swap_if true false x y = refl
swap_if false c x y = refl

del_named-IsCanonical :
    (fs : List String) (x : Exchange)
    → IsCanonical x.in_header
    → IsCanonical (del_named fs x).in_header
unfolding del_named
del_named-IsCanonical [] x i = i
del_named-IsCanonical (f ∷ fs) x i =
    del_named-IsCanonical fs _ (unless-IsCanonical (is_empty (trim_space f)) (trim_space f) x i)

values-del_named :
    (j : String) (fs : List String) (x : Exchange)
    → IsCanonical x.in_header
    → values j (out_header (del_named fs x)) ≡ (if named j fs then [] else values j (out_header x))
unfolding del_named
values-del_named j [] x i = refl
values-del_named j (f ∷ fs) x i =
    values-del_named j fs (unless (is_empty (trim_space f)) (trim_space f) x)
      (unless-IsCanonical (is_empty (trim_space f)) (trim_space f) x i)
    ∙ ap (λ (v : List String). if named j fs then [] else v)
        (values-unless (is_empty (trim_space f)) (trim_space f) j x i)
    ∙ swap_if (if is_empty (trim_space f) then false else canonical (trim_space f) == canonical j)
        (named j fs) [] (values j (out_header x))

-- An empty first value, of the values themselves.
abbrev first : List String → String
first [] = ""
first (v ∷ vs) = v

get-first : (j : String) (h : Header) → get j h ≡ first (values j h)
unfolding get
get-first j h = ground arith

-- What a loop over guarded names leaves of the values of one of them, or of another name.
abbrev left : Bool → List String → List String
left b vs = if b && not (is_empty (first vs)) then [] else vs

left-none : (b : Bool) → left b [] ≡ []
left-none true = refl
left-none false = refl

-- One guarded deletion, and the loop after it.
left-step :
    (same l : Bool) (e : Bool) (vs : List String)
    → (same ≡ true → e ≡ is_empty (first vs))
    → left l (if (if e then false else same) then [] else vs) ≡ left (same || l) vs
left-step true l true vs h = rw (← h refl) (ground arith)
left-step true l false vs h = rw (left-none l, ← h refl) refl
left-step false l true vs h = refl
left-step false l false vs h = refl

get-canonical :
    (j k : String) (h : Header) → (canonical k == canonical j) ≡ true → get k h ≡ get j h
unfolding get values
get-canonical j k h e = elim (String-cases (canonical k) (canonical j)) [
  | inl q ↦ rw q refl
  | inr q ↦ absurd (cc (q, e))
]

-- The loop over the hop-by-hop headers leaves no value under a name of the list whose first value is
-- not empty, and leaves the others as they were.
values-del_present :
    (j : String) (ks : List String) (x : Exchange)
    → IsCanonical x.in_header
    → values j (out_header (del_present ks x)) ≡ left (listed j ks) (values j (out_header x))
unfolding del_present
values-del_present j [] x i = refl
values-del_present j (k ∷ ks) x i =
    let e = is_empty (get k (out_header x)) in
    values-del_present j ks (unless e k x) (unless-IsCanonical e k x i)
    ∙ ap (left (listed j ks)) (values-unless e k j x i)
    ∙ left-step (canonical k == canonical j) (listed j ks) e (values j (out_header x))
        (λ q. ap is_empty (get-canonical j k (out_header x) q ∙ get-first j (out_header x)))

strip_connection-IsCanonical :
    (x : Exchange) → IsCanonical x.in_header → IsCanonical (strip_connection x).in_header
unfolding strip_connection
strip_connection-IsCanonical x i = elim (Bool-cases (is_empty (get "Connection" (out_header x)))) [
  | inl e ↦ rw e i
  | inr e ↦ rw e (del_named-IsCanonical (split (get "Connection" (out_header x)) b',') x i)
]

-- The names that the request's Connection header lists.
abbrev pub connection_names : Exchange → List String
connection_names x = split (get "Connection" (out_header x)) b','

values-strip_connection :
    (j : String) (x : Exchange)
    → IsCanonical x.in_header
    → values j (out_header (strip_connection x))
      ≡ (if named j (connection_names x) then [] else values j (out_header x))
unfolding strip_connection
values-strip_connection j x i = elim (Bool-cases (is_empty (get "Connection" (out_header x)))) [
  | inl e ↦ rw (e, named-empty j (get "Connection" (out_header x)) e) refl
  | inr e ↦ rw e (values-del_named j (connection_names x) x i)
]

left-if :
    (l n : Bool) (vs : List String)
    → left l (if n then [] else vs) ≡ (if n || (l && not (is_empty (first vs))) then [] else vs)
left-if l true vs = left-none l
left-if l false vs = refl

-- For a request whose headers came in with canonical names, each once, what is left of its headers
-- under a name: nothing, if the first value of the Connection header lists the name, or if it is the
-- name of a hop-by-hop header whose first value is not empty; and else the values from before.
pub strip_request_lem :
    (j : String) (x : Exchange)
    → IsCanonical x.in_header
    → values j (out_header (strip_request x)) ≡ (
        if named j (connection_names x)
          || (listed j hop_headers && not (is_empty (get j (out_header x))))
        then []
        else values j (out_header x))
unfolding strip_request
strip_request_lem j x i =
    values-del_present j hop_headers (strip_connection x) (strip_connection-IsCanonical x i)
    ∙ ap (left (listed j hop_headers)) (values-strip_connection j x i)
    ∙ left-if (listed j hop_headers) (named j (connection_names x)) (values j (out_header x))
    ∙ ap
        (λ g.
          if named j (connection_names x) || (listed j hop_headers && not (is_empty g))
          then []
          else values j (out_header x))
        (sym (get-first j (out_header x)))
