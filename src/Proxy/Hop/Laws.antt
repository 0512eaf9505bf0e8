-- ===== src/Proxy/Hop/Laws.antt =====
-- No hop-by-hop header survives.
use Prim.Native.String.{[] as nil, ◌∷◌ as cons}
use ozone.Prelude.{
  String, ◌==◌, ◌≡◌, refl, ◌∙◌, Bool, true, false, ◌||◌, List, [], ◌∷◌, arith, if◌then◌else◌,
}
use ozone.Prelude.Lists.{any}
use ozone.Prelude.Text.{is_empty, split, trim_space}
use ozone.Http.Header.{Header, canonical, values, del}
use ozone.Http.Header.Laws.{values-del}
use ozone.Proxy.Hop.{del_all}

-- The name is one of the names, in some spelling.
abbrev pub listed : String → List String → Bool
listed j ks = any (λ k. canonical k == canonical j) ks

-- A deletion leaves no value under the names of the list, and leaves the others as they were.
pub values-del_all :
    (j : String) (ks : List String) (h : Header)
    → values j (del_all ks h) ≡ (if listed j ks then [] else values j h)
unfolding del_all
values-del_all j [] h = refl
values-del_all j (k ∷ ks) h = values-del_all j ks (del k h) ∙ ground (arith, values-del k j h)

-- The names that a Connection header lists.
abbrev pub named : String → List String → Bool
named j [] = false
named j (f ∷ fs) =
    (if is_empty (trim_space f) then false else canonical (trim_space f) == canonical j)
    || named j fs

pub named-empty : (j c : String) → is_empty c ≡ true → named j (split c b',') ≡ false
unfolding split trim_space
named-empty j nil e = refl
named-empty j (cons c s) e = cc
