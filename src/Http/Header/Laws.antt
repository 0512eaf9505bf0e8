-- ===== src/Http/Header/Laws.antt =====
-- Laws of the header operations, by the canonical name.
use ozone.Prelude.{
  String, ◌==◌, eq_refl, ◌≡◌, refl, inl, inr, String-cases, [], ◌∷◌, ◌++◌, arith, if◌then◌else◌,
}
use ozone.Prelude.Dict.{lookup-insert, lookup-delete}
use ozone.Http.Header.{Header, canonical, values, get, set, add, del}

pub values-set :
    (k j v : String) (h : Header)
    → values j (set k v h) ≡ (if canonical k == canonical j then v ∷ [] else values j h)
unfolding values set
values-set k j v h = rw lookup-insert (ground arith)

pub values-add :
    (k j v : String) (h : Header)
    → values j (add k v h)
      ≡ (if canonical k == canonical j then values j h ++ v ∷ [] else values j h)
unfolding values add
values-add k j v h = rw lookup-insert (elim (String-cases (canonical k) (canonical j)) [
  | inl e ↦ rw (e, eq_refl) refl
  | inr e ↦ rw e refl
])

pub values-del :
    (k j : String) (h : Header)
    → values j (del k h) ≡ (if canonical k == canonical j then [] else values j h)
unfolding values del
values-del k j h = rw lookup-delete (ground arith)

pub get-del_self : (k : String) (h : Header) → get k (del k h) ≡ ""
unfolding get
get-del_self k h = rw (values-del, eq_refl) refl

pub get-set_self : (k v : String) (h : Header) → get k (set k v h) ≡ v
unfolding get
get-set_self k v h = rw (values-set, eq_refl) refl

pub ruleset header_laws = (values-set, values-add, values-del)
