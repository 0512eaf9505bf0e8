-- ===== src/Server/Logs.antt =====
-- The access logs that the servers of a configuration turn on.
use ozone.Prelude.{
  ℕ, String, ◌≡◌, refl, sym, ap, inl, inr, Bool, Bool-cases, Option, none, some, List, [], ◌∷◌,
  ◌++◌, map, append-nil, if◌then◌else◌,
}
use ozone.Prelude.Text.{is_empty}
use ozone.Prelude.Dict.{Dict, insert}
use ozone.AccessLog as AccessLog
use ozone.AccessLog.{
  AccessLogs, no_writer, names_file, access_log_file, register_access_log_file, wrap_audit_handler,
}
use ozone.Server.Http.{HttpServerConfig}

-- The call that turns an access log on, for the cleanup that turns it off.
abbrev pub turned_on : AccessLog.Cleanup → AccessLog.Call
turned_on c = AccessLog.toggle c.handler no_writer c.out

abbrev pub server_of : AccessLog.Cleanup → String
server_of c = c.server

-- The name, if the destination of its access log is not empty.
abbrev pub name_if : String → String → List String
name_if dest name = if is_empty dest then [] else name ∷ []

-- The destination of the access log of a server: its own, or else the global one.
abbrev pub log_of : String → HttpServerConfig → String
log_of default cfg = if is_empty cfg.access_log then default else cfg.access_log

-- The servers with an access log, in order.
abbrev pub logged : String → Dict HttpServerConfig → List String
logged default [] = []
logged default ((name, cfg) ∷ rest) = name_if (log_of default cfg) name ++ logged default rest

abbrev pub listed_cleanup : Option AccessLog.Cleanup → List AccessLog.Cleanup
listed_cleanup none = []
listed_cleanup (some c) = c ∷ []

-- The access log of a server is turned on exactly if there is a cleanup for it.
access_log_file-calls :
    (can_open : ℕ → String → Bool) (dest : String) (s : AccessLogs)
    → (access_log_file can_open dest s).1.calls ≡ s.calls
unfolding access_log_file
access_log_file-calls can_open dest s = elim (Bool-cases (names_file dest)) [
  | inl e ↦
      rw e (elim (Bool-cases (can_open s.next dest)) [ inl q ↦ rw q refl | inr q ↦ rw q refl ])
  | inr e ↦ rw e refl
]

pub wrap_audit_handler-calls :
    (can_open : ℕ → String → Bool) (name : String) (number : ℕ) (dest : String) (s : AccessLogs)
    → let (c, t) = wrap_audit_handler can_open name number dest s in
      (t.calls ≡ s.calls ++ map turned_on (listed_cleanup c))
      × (map server_of (listed_cleanup c) ≡ name_if dest name)
unfolding wrap_audit_handler register_access_log_file
wrap_audit_handler-calls can_open name number dest s = elim (Bool-cases (is_empty dest)) [
  | inl e ↦ rw e (sym (append-nil s.calls), refl)
  | inr e ↦
      let s1 = record s { handlers = insert name number s.handlers } in
      let out = (access_log_file can_open dest s1).0 in
      rw e (
        ap (λ cs. cs ++ AccessLog.toggle number no_writer out ∷ [])
            (access_log_file-calls can_open dest s1),
        refl,
      )
]
