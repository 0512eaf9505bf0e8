-- ===== src/AccessLog/Command.antt =====
-- accesslog.go, from line 126 on: the control command that lists the handlers with access logs, and
-- that sends the access log of one to the caller. The flags are parsed as Go's package flag does for
-- one flag that is a Boolean.
use Prim.Native.Char.{code}
use Prim.Native.String.{[] as nil, ◌∷◌ as cons}
use ozone.Prelude.{
  ℕ, String, ◌==◌, ◌||◌, Bool, true, false, Option, none, some, List, [], ◌∷◌, if◌then◌else◌,
  nat_eq,
}
use ozone.Prelude.Text.{append, is_empty, has_prefix, join}
use ozone.Prelude.Dict.{Dict, lookup, insert, keys}
use ozone.AccessLog.{Writer, no_writer, Call, toggle}

pub data FlagError : Type 0 where
  bad_syntax : String → FlagError
  not_defined : String → FlagError
  help : FlagError
  invalid_boolean : (value : String) → (name : String) → FlagError

-- The flag and the arguments that are left.
pub data Flags : Type 0 where
  wrong : FlagError → Flags
  flags : (only_list : Bool) → List String → Flags

-- strconv.ParseBool
abbrev parse_bool : String → Option Bool
parse_bool s =
    if (s == "1")
      || ((s == "t") || ((s == "T") || ((s == "true") || ((s == "TRUE") || (s == "True")))))
    then some true
    else if (s == "0")
        || ((s == "f") || ((s == "F") || ((s == "false") || ((s == "FALSE") || (s == "False")))))
    then some false
    else none

-- The name before the first '=', and the value after it.
unfoldable pub cut : String → String × Option String
cut nil = ("", none)
cut (cons c s) =
    let (name, value) = cut s in
    if nat_eq (code c) b'=' then ("", some s) else (append (cons c nil) name, value)

-- What an argument is: the end of the flags, their end with the argument itself dropped, an error, or
-- a value of the flag.
pub data Argument : Type 0 where
  no_flag : Argument
  terminator : Argument
  refused : FlagError → Argument
  list_flag : Bool → Argument

abbrev valued : String × Option String → Argument
valued (name, value) =
    if name == "list"
    then elim value [
      | none ↦ list_flag true
      | some v ↦ elim (parse_bool v) [
        | none ↦ refused (invalid_boolean v name)
        | some b ↦ list_flag b
      ]
    ]
    else if (name == "help") || (name == "h")
    then refused help
    else refused (not_defined name)

-- The name of a flag, after its dashes; `s` is the whole argument.
abbrev named_flag : (s : String) → String → Argument
unfolding cut
named_flag s name =
    if is_empty name || (has_prefix b'-' name || has_prefix b'=' name)
    then refused (bad_syntax s)
    else valued (cut name)

unfoldable pub argument : String → Argument
unfolding cut has_prefix
argument nil = no_flag
argument (cons c nil) = no_flag
argument (cons c (cons d s)) =
    if nat_eq (code c) b'-'
    then (if nat_eq (code d) b'-'
        then (if is_empty s then terminator else named_flag (cons c (cons d s)) s)
        else named_flag (cons c (cons d s)) (cons d s))
    else no_flag

-- FlagSet.Parse
unfoldable pub parse_flags : (only_list : Bool) → List String → Flags
unfolding argument
parse_flags l [] = flags l []
parse_flags l (s ∷ args) = elim (argument s) [
  | no_flag ↦ flags l (s ∷ args)
  | terminator ↦ flags l args
  | refused e ↦ wrong e
  | list_flag b ↦ parse_flags b args
]

-- The handlers of the command, and RegisterLogHandler.
unfoldable pub register_log_handler : String → ℕ → Dict ℕ → Dict ℕ
unfolding insert
register_log_handler name handler handlers = insert name handler handlers

-- What Invoke gives: an error, the lines that it writes, the command to repeat after a reload, and
-- the handler whose access log goes to the caller until the end.
pub record Invoked : Type 0 where
  pub err : Option FlagError
  pub out : List String
  pub persistent : String
  pub async : Option ℕ

abbrev written : Option FlagError → List String → Invoked
written e lines = record { err = e; out = lines; persistent = ""; async = none }

abbrev handler_name : List String → String
handler_name [] = ""
handler_name (s ∷ []) = s
handler_name (s ∷ (t ∷ rest)) = ""

abbrev toggled : String → List String → Option ℕ → Invoked
toggled cmd args none = written none ("No logging" ∷ [])
toggled cmd args (some h) = record {
  err = none;
  out = [];
  persistent = join (cmd ∷ join args " " ∷ []) " ";
  async = some h;
}

abbrev with_flags : String → Dict ℕ → Flags → Invoked
unfolding join lookup
with_flags cmd handlers (wrong e) = written (some e) ("Syntax error" ∷ [])
with_flags cmd handlers (flags true []) = written none (keys handlers)
with_flags cmd handlers (flags false []) = toggled cmd [] (lookup "" handlers)
with_flags cmd handlers (flags l (s ∷ args)) =
    toggled cmd (s ∷ args) (lookup (handler_name (s ∷ args)) handlers)

-- Invoke; the line on a syntax error also holds the text of the error.
unfoldable pub invoke_access_log : String → List String → Dict ℕ → Invoked
unfolding parse_flags with_flags
invoke_access_log cmd args handlers = with_flags cmd handlers (parse_flags false args)

-- The asynchronous part, for the handler and the caller's connection: on, and off at the end.
unfoldable pub async_calls : (handler : ℕ) → Writer → List Call
async_calls handler w = toggle handler no_writer w ∷ toggle handler w no_writer ∷ []
