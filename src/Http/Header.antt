-- ===== src/Http/Header.antt =====
-- http.Header: a map from canonical names to lists of values.
pub mod Laws
use Prim.Native.Char.{Char, code}
use Prim.Native.String.{[] as nil, ◌∷◌ as cons}
use ozone.Prelude.{
  ℕ, String, Bool, true, false, not, ◌&&◌, ◌||◌, Option, none, some, List, [], ◌∷◌, ◌++◌, nat_eq,
  leb, if◌then◌else◌,
}
use ozone.Prelude.Text.{translate, lowers, uppers}
use ozone.Prelude.Dict.{Dict, lookup, insert, delete}

abbrev pub Header : Type 0
Header = Dict (List String)

-- The bytes that a header name may hold.
abbrev is_alphanumeric : ℕ → Bool
is_alphanumeric n =
    (leb b'0' n && leb n b'9') || (leb b'A' n && leb n b'Z') || (leb b'a' n && leb n b'z')

abbrev is_mark : ℕ → String → Bool
is_mark n nil = false
is_mark n (cons c s) = nat_eq (code c) n || is_mark n s

abbrev is_token : ℕ → Bool
is_token n = is_alphanumeric n || is_mark n "!#$%&'*+-.^_`|~"

unfoldable pub all_token : String → Bool
all_token nil = true
all_token (cons c s) = is_token (code c) && all_token s

-- The first letter and each letter after a dash becomes upper case, the others lower case.
unfoldable pub canonical_from : Bool → String → String
unfolding translate
canonical_from upper nil = nil
canonical_from upper (cons c s) =
    cons (if upper then translate lowers uppers c else translate uppers lowers c)
      (canonical_from (nat_eq (code c) b'-') s)

-- textproto.CanonicalMIMEHeaderKey: a name with a byte that is not allowed stays as it is.
unfoldable pub canonical : String → String
unfolding all_token canonical_from
canonical k = if all_token k then canonical_from true k else k

abbrev pub values_or_nil : Option (List String) → List String
values_or_nil none = []
values_or_nil (some vs) = vs

abbrev first_or_empty : List String → String
first_or_empty [] = ""
first_or_empty (v ∷ vs) = v

-- The list of values of a name.
unfoldable pub values : String → Header → List String
unfolding lookup
values k h = values_or_nil (lookup (canonical k) h)

-- Header.Get, Set, Add and Del
unfoldable pub get : String → Header → String
unfolding values
get k h = first_or_empty (values k h)

unfoldable pub set : String → String → Header → Header
unfolding insert
set k v h = insert (canonical k) (v ∷ []) h

unfoldable pub add : String → String → Header → Header
unfolding insert values
add k v h = insert (canonical k) (values k h ++ v ∷ []) h

unfoldable pub del : String → Header → Header
unfolding delete
del k h = delete (canonical k) h
