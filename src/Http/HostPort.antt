-- ===== src/Http/HostPort.antt =====
-- net.SplitHostPort and net.JoinHostPort
pub mod RoundTrip
pub mod Decimal
use Prim.Native.Char.{Char, code}
use Prim.Native.String.{[] as nil, ◌∷◌ as cons}
use ozone.Prelude.{
  ℕ, String, Bool, false, not, ◌&&◌, ◌||◌, Option, none, some, nat_eq, if◌then◌else◌,
}
use ozone.Prelude.Text.{append}

unfoldable pub contains : ℕ → String → Bool
contains n nil = false
contains n (cons c s) = nat_eq (code c) n || contains n s

abbrev prepend : Char → String × String → String × String
prepend c (a, b) = (cons c a, b)

abbrev prepend_some : Char → Option (String × String) → Option (String × String)
prepend_some c none = none
prepend_some c (some p) = some (prepend c p)

-- What stands before and after the first place of a character.
unfoldable pub cut_first : ℕ → String → Option (String × String)
cut_first n nil = none
cut_first n (cons c s) = if nat_eq (code c) n then some (nil, s) else prepend_some c (cut_first n s)

-- What stands before and after the last place of a character.
unfoldable pub cut_last : ℕ → String → Option (String × String)
unfolding contains
cut_last n nil = none
cut_last n (cons c s) =
    if nat_eq (code c) n && not (contains n s) then some (nil, s) else prepend_some c (cut_last n s)

-- The rest after "[host]": a colon, and a port without colons and brackets.
abbrev bracket_port : String → String → Option (String × String)
bracket_port host nil = none
bracket_port host (cons c port) =
    if nat_eq (code c) b':'
      && not (contains b':' port)
      && not (contains b'[' host)
      && not (contains b'[' port)
      && not (contains b']' port)
    then some (host, port)
    else none

abbrev bracket_parts : Option (String × String) → Option (String × String)
bracket_parts none = none
bracket_parts (some (host, rest)) = bracket_port host rest

abbrev plain_parts : Option (String × String) → Option (String × String)
plain_parts none = none
plain_parts (some (host, port)) =
    if contains b':' host
      || contains b'[' host
      || contains b']' host
      || contains b'[' port
      || contains b']' port
    then none
    else some (host, port)

-- The host and the port; `none` is an error.
unfoldable pub split_host_port : String → Option (String × String)
unfolding cut_first cut_last contains
split_host_port nil = none
split_host_port (cons c s) =
    if nat_eq (code c) b'['
    then bracket_parts (cut_first b']' s)
    else plain_parts (cut_last b':' (cons c s))

unfoldable pub join_host_port : String → String → String
unfolding contains
join_host_port host port =
    if contains b':' host
    then append "[" (append host (append "]:" port))
    else append host (append ":" port)
