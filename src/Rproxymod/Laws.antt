-- ===== src/Rproxymod/Laws.antt =====
-- The copy of the headers, and what a module may write.
use ozone.Prelude.{
  String, ◌==◌, eq_refl, true, false, ◌≡◌, refl, sym, ap, ◌∙◌, inl, inr, String-cases, Bool-cases,
  none, List, [], ◌∷◌, ◌++◌, append_assoc, append-nil, if◌then◌else◌, arith,
}
use ozone.Prelude.Dict.{lookup}
use ozone.Http.Header.{Header, canonical, values, values_or_nil, add}
use ozone.Http.Header.Laws.{values-add}
use ozone.Rproxymod.{
  Exchange, add_values, copy_header, out_header, write_out, ensure_writable_header,
}

-- The values of a name in the source, over all spellings of the name, in the order of iteration.
abbrev pub collected : String → Header → List String
collected j [] = []
collected j ((k, vv) ∷ src) =
    if canonical k == canonical j then vv ++ collected j src else collected j src

values-add_values :
    (k j : String) (vs : List String) (dst : Header)
    → values j (add_values k vs dst)
      ≡ (if canonical k == canonical j then values j dst ++ vs else values j dst)
unfolding add_values
values-add_values k j [] dst = elim (String-cases (canonical k) (canonical j)) [
  | inl e ↦ rw (e, eq_refl) (sym (append-nil (values j dst)))
  | inr e ↦ rw e refl
]
values-add_values k j (v ∷ vs) dst =
    values-add_values k j vs (add k v dst) ∙ elim (String-cases (canonical k) (canonical j)) [
      | inl e ↦
          rw (e, eq_refl, values-add k j v dst, e, eq_refl)
            (append_assoc (values j dst) (v ∷ []) vs)
      | inr e ↦ rw (e, values-add k j v dst, e) refl
    ]

-- After copyHeader the destination has, under each name, its values from before followed by those of
-- the source under all spellings of that name.
pub values-copy_header :
    (j : String) (dst src : Header)
    → values j (copy_header dst src) ≡ values j dst ++ collected j src
unfolding copy_header
values-copy_header j dst [] = sym (append-nil (values j dst))
values-copy_header j dst ((k, vv) ∷ src) =
    values-copy_header j (add_values k vv dst) src
    ∙ elim (String-cases (canonical k) (canonical j)) [
      | inl e ↦
          rw (values-add_values k j vv dst, e, eq_refl)
            (append_assoc (values j dst) vv (collected j src))
      | inr e ↦ rw (values-add_values k j vv dst, e) refl
    ]

-- After EnsureWritableHeader, whatever is written through the outgoing request leaves the headers of
-- the incoming request as they were.
pub write_out-in_header :
    (f : Header → Header) (x : Exchange)
    → (write_out f (ensure_writable_header x)).in_header ≡ x.in_header
unfolding write_out ensure_writable_header
write_out-in_header f x = ground arith

-- Without it, a write reaches the headers of the incoming request.
pub write_out-shared :
    (f : Header → Header) (x : Exchange)
    → x.ctx.copied_headers ≡ false
    → (write_out f x).in_header ≡ f x.in_header
unfolding write_out
write_out-shared f x e = rw e refl

pub out_header-write_out :
    (f : Header → Header) (x : Exchange) → out_header (write_out f x) ≡ f (out_header x)
unfolding out_header write_out
out_header-write_out f x = ground arith

pub ensured : (x : Exchange) → (ensure_writable_header x).ctx.copied_headers ≡ true
unfolding ensure_writable_header
ensured x = ground arith

-- A header map as the parser of net/http makes it: canonical names, each once.
abbrev pub IsCanonical : Header → Type 0
IsCanonical [] = Unit
IsCanonical ((k, vv) ∷ h) = (canonical k ≡ k) × (lookup k h ≡ none) × IsCanonical h

collected-values : (j : String) (h : Header) → IsCanonical h → collected j h ≡ values j h
unfolding values lookup
collected-values j [] i = refl
collected-values j ((k, vv) ∷ h) (c, fresh, i) = elim (String-cases k (canonical j)) [
  | inl e ↦
      rw (c, e, eq_refl)
        (ap (λ ws. vv ++ ws)
            (collected-values j h i ∙ ap values_or_nil (ap (λ n. lookup n h) (sym e) ∙ fresh))
          ∙ append-nil vv)
  | inr e ↦ rw (c, e) (collected-values j h i)
]

-- The copy of such a map has the same values under every name.
pub values-ensure :
    (j : String) (x : Exchange)
    → IsCanonical x.in_header
    → values j (out_header (ensure_writable_header x)) ≡ values j (out_header x)
unfolding out_header ensure_writable_header values
values-ensure j x i = elim (Bool-cases x.ctx.copied_headers) [
  | inl e ↦ ground arith
  | inr e ↦
      let copy = values-copy_header j [] x.in_header ∙ collected-values j x.in_header i in
      ground (arith, copy)
]
