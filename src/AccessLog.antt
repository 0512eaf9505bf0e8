-- ===== src/AccessLog.antt =====
-- accesslog.go: the registry of the open access logs. The calls of ToggleAccessLog, which the access
-- log handler of another library takes, and of Close are recorded in the order in which they happen.
pub mod Laws
pub mod Command
mod Tests
use Prim.Native.Char.{code}
use Prim.Native.String.{[] as nil, ◌∷◌ as cons}
use ozone.Prelude.{
  ℕ, suc, String, ◌==◌, Bool, true, false, not, Option, none, some, List, [], ◌∷◌, ◌++◌,
  if◌then◌else◌, nat_eq,
}
use ozone.Prelude.Text.{is_empty, append}
use ozone.Prelude.Dict.{Dict, lookup, insert, delete}
use ozone.Prelude.Outcome.{Outcome, returns, panics, ◌>>=◌}

-- An io.WriteCloser: the nil interface, a nil *os.File, which os.OpenFile gives beside an error, or
-- an open file.
pub data Writer : Type 0 where
  no_writer : Writer
  nil_file : Writer
  file : ℕ → Writer

-- activeAccesslog; the handler is told apart by its number.
pub record ActiveAccessLog : Type 0 where
  pub filename : String
  pub handler : ℕ
  pub writer : Writer

pub data Call : Type 0 where
  toggle : ℕ → Writer → Writer → Call
  close : ℕ → Call

-- The two registries, the calls so far, and the number of the next file.
pub record AccessLogs : Type 0 where
  pub registry : Dict ActiveAccessLog
  pub handlers : Dict ℕ
  pub calls : List Call
  pub next : ℕ

abbrev pub record_call : Call → AccessLogs → AccessLogs
record_call c s = record s { calls = s.calls ++ c ∷ [] }

-- out.Close(): on a nil interface it panics, on a nil file it gives an error.
unfoldable pub close_writer : Writer → AccessLogs → Outcome AccessLogs
close_writer no_writer s = panics
close_writer nil_file s = returns s
close_writer (file n) s = returns (record_call (close n) s)

-- Whether a destination is a file.
abbrev pub names_file : String → Bool
names_file nil = false
names_file (cons c s) = not (nat_eq (code c) b'|')

-- accessLogFile; `can_open` tells of each call of os.OpenFile whether it succeeds.
unfoldable pub access_log_file :
    (can_open : ℕ → String → Bool) → String → AccessLogs → Writer × AccessLogs
access_log_file can_open dest s =
    if names_file dest
    then if can_open s.next dest
      then (file s.next, record s { next = suc s.next })
      else (nil_file, record s { next = suc s.next })
    else (no_writer, s)

unfoldable pub register_access_log_file : String → String → ℕ → Writer → AccessLogs → AccessLogs
unfolding insert
register_access_log_file name filename handler w s = record s {
  registry = insert name (record { filename = filename; handler = handler; writer = w }) s.registry;
}

unfoldable pub unregister_access_log_file : String → AccessLogs → AccessLogs
unfolding delete
unregister_access_log_file name s = record s { registry = delete name s.registry }

-- One round of the loop of ReopenAccessLogFiles, and the loop, over the registry as it stands.
unfoldable pub reopen_one :
    (can_open : ℕ → String → Bool)
    → ActiveAccessLog
    → AccessLogs
    → Outcome (ActiveAccessLog × AccessLogs)
unfolding access_log_file close_writer
reopen_one can_open spec s =
    let (w, s1) = access_log_file can_open spec.filename s in
    close_writer spec.writer (record_call (toggle spec.handler spec.writer w) s1) >>= λ s2.
    returns (record spec { writer = w }, s2)

unfoldable pub reopen_loop :
    (can_open : ℕ → String → Bool)
    → Dict ActiveAccessLog
    → AccessLogs
    → Outcome (Dict ActiveAccessLog × AccessLogs)
unfolding reopen_one
reopen_loop can_open [] s = returns ([], s)
reopen_loop can_open ((name, spec) ∷ rest) s = reopen_one can_open spec s >>= λ (spec', s').
    reopen_loop can_open rest s' >>= λ (rest', s''). returns ((name, spec') ∷ rest', s'')

unfoldable pub reopen_access_log_files :
    (can_open : ℕ → String → Bool) → AccessLogs → Outcome AccessLogs
unfolding reopen_loop
reopen_access_log_files can_open s = reopen_loop can_open s.registry s >>= λ (registry', s').
    returns (record s' { registry = registry' })

-- The cleanup function that wrapAuditHandler returns.
pub record Cleanup : Type 0 where
  pub server : String
  pub handler : ℕ
  pub out : Writer

-- wrapAuditHandler, for a new handler of that number.
unfoldable pub wrap_audit_handler :
    (can_open : ℕ → String → Bool) → String → ℕ → String → AccessLogs → Option Cleanup × AccessLogs
unfolding access_log_file register_access_log_file insert
wrap_audit_handler can_open server handler dest s =
    let s1 = record s { handlers = insert server handler s.handlers } in
    if is_empty dest
    then (none, s1)
    else let (out, s2) = access_log_file can_open dest s1 in
      (
        some (record { server = server; handler = handler; out = out }),
        record_call (toggle handler no_writer out)
            (register_access_log_file server dest handler out s2),
      )

unfoldable pub run_cleanup : Cleanup → AccessLogs → Outcome AccessLogs
unfolding unregister_access_log_file close_writer
run_cleanup c s =
    close_writer c.out
      (unregister_access_log_file c.server (record_call (toggle c.handler c.out no_writer) s))
