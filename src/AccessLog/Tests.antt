-- ===== src/AccessLog/Tests.antt =====
-- Access logs that are opened, reopened and closed.
use ozone.Prelude.{ℕ, ◌≤◌, String, ◌≡◌, refl, Bool, [], ◌∷◌, none, some, nat_eq, not}
use ozone.Prelude.Dict.{lookup, insert, keys}
use ozone.Prelude.Outcome.{returns, panics, Returns}
use ozone.AccessLog.{
  Writer, no_writer, nil_file, file, ActiveAccessLog, toggle, close, AccessLogs, Cleanup,
  wrap_audit_handler, run_cleanup, reopen_access_log_files,
}
use ozone.AccessLog.Command.{not_defined, invoke_access_log}
use ozone.AccessLog.Laws.{IsUsable, closed, reopen_access_log_files_lem, run_cleanup_lem}

-- The fifth call of os.OpenFile fails.
abbrev can_open : ℕ → String → Bool
can_open n dest = not (nat_eq n 5)

abbrev entry : String → ℕ → Writer → ActiveAccessLog
entry f h w = record { filename = f; handler = h; writer = w }

abbrev logs : AccessLogs
logs = record {
  registry = ("a", entry "/var/a" 1 (file 2)) ∷ ("b", entry "b.log" 2 (file 3)) ∷ [];
  handlers = ("a", 1) ∷ ("b", 2) ∷ [];
  calls = [];
  next = 4;
}

abbrev reopened : AccessLogs
reopened = record {
  registry = ("a", entry "/var/a" 1 (file 4)) ∷ ("b", entry "b.log" 2 nil_file) ∷ [];
  handlers = ("a", 1) ∷ ("b", 2) ∷ [];
  calls = toggle 1 (file 2) (file 4) ∷ close 2 ∷ toggle 2 (file 3) nil_file ∷ close 3 ∷ [];
  next = 6;
}

reopens : reopen_access_log_files can_open logs ≡ returns reopened
unfolding reopen_access_log_files
reopens = refl

reopen_access_log_files_example :
    (keys reopened.registry ≡ "a" ∷ "b" ∷ [])
    × IsUsable reopened.registry
    × (closed reopened.calls ≡ 2 ∷ 3 ∷ [])
    × ((4 ≤ 4) × Unit {0})
unfolding reopen_access_log_files
reopen_access_log_files_example =
    reopen_access_log_files_lem can_open logs (refl, refl, (refl, refl, tt))

-- A wrapped handler is registered under its server.
wrapped : lookup "a" (wrap_audit_handler can_open "a" 7 "/var/a" logs).1.handlers ≡ some 7
unfolding wrap_audit_handler insert lookup
wrapped = refl

-- A destination that is a command: its cleanup function panics.
pipe_panics : run_cleanup (record { server = "a"; handler = 1; out = no_writer }) logs ≡ panics
unfolding run_cleanup
pipe_panics = refl

abbrev old : Cleanup
old = record { server = "a"; handler = 1; out = file 2 }

run_cleanup_example :
    Returns
      (λ t. (lookup "a" t.registry ≡ none) × (closed t.calls ≡ 2 ∷ []))
      (run_cleanup old (wrap_audit_handler can_open "a" 7 "/var/a" logs).1)
unfolding wrap_audit_handler
run_cleanup_example = run_cleanup_lem old (wrap_audit_handler can_open "a" 7 "/var/a" logs).1 refl

listed :
    invoke_access_log "alog" ("--list=T" ∷ []) logs.handlers
    ≡ record { err = none; out = "a" ∷ "b" ∷ []; persistent = ""; async = none }
unfolding invoke_access_log
listed = refl

sent :
    invoke_access_log "alog" ("--" ∷ "b" ∷ []) logs.handlers
    ≡ record { err = none; out = []; persistent = "alog b"; async = some 2 }
unfolding invoke_access_log
sent = refl

misspelt : (invoke_access_log "alog" ("-lst" ∷ []) logs.handlers).err ≡ some (not_defined "lst")
unfolding invoke_access_log
misspelt = refl
