-- ===== src/Daemon/Command.antt =====
-- proccmd.go, Invoke: the command that controls the daemon.
use Prim.Native.Char.{code}
use Prim.Native.String.{[] as nil, ◌∷◌ as cons}
use ozone.Prelude.{
  ℕ, ◌-◌, ◌*◌, ◌%◌, ◌^◌, String, ◌==◌, false, Option, none, some, List, [], ◌∷◌, if◌then◌else◌, leb,
  nat_eq,
}
use ozone.Prelude.Text.{append, is_empty}
use ozone.Prelude.Outcome.{Outcome, returns, panics}
use ozone.Prelude.Result.{Result, fails, gives}
use ozone.RequestMetrics.{digits_value}
use ozone.Daemon.Init.{
  Action, exit, exit_graceful_with_timeout, notify, reload, replace_process, sigterm,
}

-- strconv.Atoi, as the 64 bits of the int; the error's text is that of strconv.
abbrev syntax_error : String → String
syntax_error s = append "strconv.Atoi: parsing \"" (append s "\": invalid syntax")

abbrev range_error : String → String
range_error s = append "strconv.Atoi: parsing \"" (append s "\": value out of range")

abbrev bounded : String → (limit : ℕ) → (ℕ → ℕ) → Option ℕ → Result ℕ
bounded s limit bits none = fails (syntax_error s)
bounded s limit bits (some n) = if leb n limit then gives (bits n) else fails (range_error s)

unfoldable pub atoi : String → Result ℕ
unfolding digits_value
atoi nil = fails (syntax_error "")
atoi (cons c s) =
    if nat_eq (code c) b'-'
    then bounded (cons c s) (2 ^ 63) (λ n. (2 ^ 64 - n) % 2 ^ 64)
        (if is_empty s then none else digits_value 0 s)
    else if nat_eq (code c) b'+'
    then bounded (cons c s) (2 ^ 63 - 1) (λ n. n) (if is_empty s then none else digits_value 0 s)
    else bounded (cons c s) (2 ^ 63 - 1) (λ n. n) (digits_value 0 (cons c s))

-- The timeout of "stop" in nanoseconds, as the 64 bits of a time.Duration: the product wraps.
abbrev pub stop_timeout : List String → Result ℕ
unfolding atoi
stop_timeout [] = gives 0
stop_timeout (s ∷ rest) =
    if is_empty s
    then gives 0
    else elim (atoi s) [ fails e ↦ fails e | gives to ↦ gives (10 ^ 9 * to % 2 ^ 64) ]

-- What Invoke gives: its error, what it writes, and what it asks of the daemon.
pub record Invoked : Type 0 where
  pub err : Option String
  pub out : String
  pub actions : List Action

abbrev asked : List Action → Invoked
asked actions = record { err = none; out = ""; actions = actions }

abbrev stopped : Result ℕ → Invoked
stopped (fails e) = record { err = some e; out = ""; actions = [] }
stopped (gives to) = asked (notify "STOPPING=1" ∷ exit_graceful_with_timeout to ∷ [])

-- Invoke: without arguments the read of the first one panics.
unfoldable pub invoke : List String → Outcome Invoked
unfolding stop_timeout
invoke [] = panics
invoke (cmd ∷ args) = returns (
    if cmd == "reload"
    then asked (reload ∷ [])
    else if cmd == "kill"
    then asked (exit false ∷ [])
    else if cmd == "stop"
    then stopped (stop_timeout args)
    else if cmd == "respawn"
    then asked (replace_process sigterm ∷ [])
    else record { err = none; out = "Unknown action\n"; actions = [] })
