-- ===== src/AccessLog/Laws.antt =====
-- What reopening the access logs closes and opens.
use Prim.Native.String.{[] as nil, ◌∷◌ as cons}
use ozone.Prelude.{
  ℕ, ◌≤◌, String, eq_refl, ◌≡◌, refl, sym, ap, ◌∙◌, inl, inr, Bool, true, false, Bool-cases, none,
  some, List, [], ◌∷◌, ◌++◌, append-nil, append_assoc, arith,
}
use ozone.Prelude.Lists.{All, All-append}
use ozone.Prelude.Text.{is_empty}
use ozone.Prelude.Dict.{Dict, lookup, insert, delete, keys, lookup-insert, lookup-delete}
use ozone.Prelude.Outcome.{Returns, Returns->>=}
use ozone.AccessLog.{
  Writer, no_writer, nil_file, file, ActiveAccessLog, Call, toggle, close, AccessLogs, record_call,
  close_writer, names_file, access_log_file, register_access_log_file, unregister_access_log_file,
  reopen_one, reopen_loop, reopen_access_log_files, Cleanup, wrap_audit_handler, run_cleanup,
}

abbrev pub is_writer : Writer → Bool
is_writer no_writer = false
is_writer nil_file = true
is_writer (file n) = true

-- An access log that goes to a file, opened or not.
abbrev pub IsUsable : Dict ActiveAccessLog → Type 0
IsUsable [] = Unit
IsUsable ((name, spec) ∷ rest) =
    (names_file spec.filename ≡ true) × (is_writer spec.writer ≡ true) × IsUsable rest

abbrev pub files_of : Writer → List ℕ
files_of (file n) = n ∷ []
files_of _ = []

-- The open files of a registry.
abbrev pub files : Dict ActiveAccessLog → List ℕ
files [] = []
files ((name, spec) ∷ rest) = files_of spec.writer ++ files rest

-- The files that were closed, in order.
abbrev pub closed : List Call → List ℕ
closed [] = []
closed (close n ∷ cs) = n ∷ closed cs
closed (toggle h v w ∷ cs) = closed cs

closed-append : (cs ds : List Call) → closed (cs ++ ds) ≡ closed cs ++ closed ds
closed-append [] ds = refl
closed-append (close n ∷ cs) ds = ap (λ t. n ∷ t) (closed-append cs ds)
closed-append (toggle h v w ∷ cs) ds = closed-append cs ds

close_writer-closed :
    (v : Writer) (s : AccessLogs)
    → is_writer v ≡ true
    → Returns
        (λ t. (closed t.calls ≡ closed s.calls ++ files_of v) × (t.next ≡ s.next))
        (close_writer v s)
unfolding close_writer
close_writer-closed no_writer s w = cc
close_writer-closed nil_file s w = (sym (append-nil (closed s.calls)), refl)
close_writer-closed (file n) s w = (closed-append s.calls (close n ∷ []), refl)

-- What the opening of a file gives.
abbrev IsOpened : AccessLogs → Writer × AccessLogs → Type 0
IsOpened s (w, t) =
    (is_writer w ≡ true)
    × (t.calls ≡ s.calls)
    × All (λ n. s.next ≤ n) (files_of w)
    × (s.next ≤ t.next)

access_log_file-IsOpened :
    (can_open : ℕ → String → Bool) (dest : String) (s : AccessLogs)
    → names_file dest ≡ true
    → IsOpened s (access_log_file can_open dest s)
unfolding access_log_file
access_log_file-IsOpened can_open dest s f = elim (Bool-cases (can_open s.next dest)) [
  | inl e ↦ rw (f, e, access_log_file) (refl, refl, (omega arith, tt), omega arith)
  | inr e ↦ rw (f, e, access_log_file) (refl, refl, tt, omega arith)
]

-- The state after a writer is closed.
abbrev Closed : Writer → AccessLogs → AccessLogs → Type 0
Closed v s t = (closed t.calls ≡ closed s.calls ++ files_of v) × (t.next ≡ s.next)

-- What one round does, for a log that goes to a file.
abbrev Reopened : ActiveAccessLog → AccessLogs → ActiveAccessLog × AccessLogs → Type 0
Reopened spec s (spec', s') =
    (spec'.filename ≡ spec.filename)
    × (is_writer spec'.writer ≡ true)
    × (closed s'.calls ≡ closed s.calls ++ files_of spec.writer)
    × All (λ n. s.next ≤ n) (files_of spec'.writer)
    × (s.next ≤ s'.next)

reopen_one-Reopened :
    (can_open : ℕ → String → Bool) (spec : ActiveAccessLog) (s : AccessLogs)
    → names_file spec.filename ≡ true
    → is_writer spec.writer ≡ true
    → Returns (Reopened spec s) (reopen_one can_open spec s)
unfolding reopen_one
reopen_one-Reopened can_open spec s f w =
    Returns->>= (Closed spec.writer u) (Reopened spec s) _ _ (close_writer-closed spec.writer u w)
      λ t (c, n). (
        refl,
        opened.0,
        c
            ∙ ap (λ ns. ns ++ files_of spec.writer)
                (closed-append s1.calls (toggle spec.handler spec.writer v ∷ [])
                  ∙ append-nil (closed s1.calls)
                  ∙ ap closed opened.1),
        opened.2,
        omega (arith, opened.3, n),
      )
  where
    v : Writer
    v = (access_log_file can_open spec.filename s).0

    s1 : AccessLogs
    s1 = (access_log_file can_open spec.filename s).1

    u : AccessLogs
    u = record_call (toggle spec.handler spec.writer v) s1

    opened : IsOpened s (v, s1)
    opened = access_log_file-IsOpened can_open spec.filename s f

weaken_bound : (a b : ℕ) (ns : List ℕ) → a ≤ b → All (λ n. b ≤ n) ns → All (λ n. a ≤ n) ns
weaken_bound a b [] h k = tt
weaken_bound a b (n ∷ ns) h (k, ks) = (omega arith, weaken_bound a b ns h ks)

-- What the loop does.
abbrev pub AllReopened :
    Dict ActiveAccessLog → AccessLogs → Dict ActiveAccessLog × AccessLogs → Type 0
AllReopened reg s (reg', s') =
    (keys reg' ≡ keys reg)
    × IsUsable reg'
    × (closed s'.calls ≡ closed s.calls ++ files reg)
    × All (λ n. s.next ≤ n) (files reg')

reopen_loop-AllReopened :
    (can_open : ℕ → String → Bool) (reg : Dict ActiveAccessLog) (s : AccessLogs)
    → IsUsable reg
    → Returns (AllReopened reg s) (reopen_loop can_open reg s)
unfolding reopen_loop
reopen_loop-AllReopened can_open [] s i = (refl, tt, sym (append-nil (closed s.calls)), tt)
reopen_loop-AllReopened can_open ((name, spec) ∷ rest) s (f, w, i) =
    Returns->>= (Reopened spec s) _ _ _ (reopen_one-Reopened can_open spec s f w)
      λ (spec', s1) (e, w', c, new, le).
        Returns->>= (AllReopened rest s1) _ _ _ (reopen_loop-AllReopened can_open rest s1 i)
          λ (rest', s2) (k, i', c', new'). (
            ap (λ t. name ∷ t) k,
            (ap names_file e ∙ f, w', i'),
            c'
                ∙ ap (λ t. t ++ files rest) c
                ∙ append_assoc (closed s.calls) (files_of spec.writer) (files rest),
            All-append (λ n. s.next ≤ n) (files_of spec'.writer) (files rest') new
                (weaken_bound s.next s1.next (files rest') le new'),
          )

-- If each registered access log goes to a file, opened or not, ReopenAccessLogFiles returns; it has
-- then closed exactly the open files of the registry, each once and in order, the same servers are
-- registered with access logs that go to files, and the open ones are files that it opened itself.
pub reopen_access_log_files_lem :
    (can_open : ℕ → String → Bool) (s : AccessLogs)
    → IsUsable s.registry
    → Returns (λ t. AllReopened s.registry s (t.registry, t)) (reopen_access_log_files can_open s)
unfolding reopen_access_log_files
reopen_access_log_files_lem can_open s i =
    Returns->>= (AllReopened s.registry s) _ _ _ (reopen_loop-AllReopened can_open s.registry s i)
      λ (reg', s') h. h

named-nonempty : (dest : String) → names_file dest ≡ true → is_empty dest ≡ false
named-nonempty nil e = cc
named-nonempty (cons c s) e = refl

stored {ℓ} : {V : Type ℓ} (k : String) (v : V) (d : Dict V) → lookup k (insert k v d) ≡ some v
stored k v d = rw (lookup-insert k k v d, eq_refl k) refl

-- For a destination that is a file, wrapAuditHandler registers the handler for the server in both
-- registries, the access log with the writer that its cleanup function has.
pub wrap_audit_handler_lem :
    (can_open : ℕ → String → Bool) (server : String) (handler : ℕ) (dest : String) (s : AccessLogs)
    → names_file dest ≡ true
    → (w : Writer) × (is_writer w ≡ true)
      × ((wrap_audit_handler can_open server handler dest s).0
          ≡ some (record { server = server; handler = handler; out = w }))
      × (lookup server (wrap_audit_handler can_open server handler dest s).1.registry
          ≡ some (record { filename = dest; handler = handler; writer = w }))
      × (lookup server (wrap_audit_handler can_open server handler dest s).1.handlers
          ≡ some handler)
unfolding wrap_audit_handler register_access_log_file access_log_file
wrap_audit_handler_lem can_open server handler dest s f = elim (Bool-cases (can_open s.next dest)) [
  | inl e ↦
      rw (named-nonempty dest f, f, e, wrap_audit_handler, access_log_file)
        (file s.next, refl, refl, stored _ _ s.registry, stored _ _ s.handlers)
  | inr e ↦
      rw (named-nonempty dest f, f, e, wrap_audit_handler, access_log_file)
        (nil_file, refl, refl, stored _ _ s.registry, stored _ _ s.handlers)
]

-- The cleanup function of a writer that is not nil returns; it has then closed that writer's file,
-- and no access log is registered for its server, even if another handler's was in between.
pub run_cleanup_lem :
    (c : Cleanup) (s : AccessLogs)
    → is_writer c.out ≡ true
    → Returns
        (λ t.
          (lookup c.server t.registry ≡ none) × (closed t.calls ≡ closed s.calls ++ files_of c.out))
        (run_cleanup c s)
unfolding run_cleanup unregister_access_log_file close_writer
run_cleanup_lem c s w = go c.out w
  where
    removed : lookup c.server (delete c.server s.registry) ≡ none
    removed = rw (lookup-delete c.server c.server s.registry, eq_refl c.server) refl

    go :
        (v : Writer)
        → is_writer v ≡ true
        → Returns
            (λ t.
              (lookup c.server t.registry ≡ none) × (closed t.calls ≡ closed s.calls ++ files_of v))
            (close_writer v
              (unregister_access_log_file c.server (record_call (toggle c.handler v no_writer) s)))
    go no_writer e = cc
    go nil_file e = (removed, closed-append s.calls (toggle c.handler nil_file no_writer ∷ []))
    go (file n) e = (
      removed,
      closed-append (s.calls ++ toggle c.handler (file n) no_writer ∷ []) (close n ∷ [])
          ∙ ap (λ t. t ++ n ∷ [])
              (closed-append s.calls (toggle c.handler (file n) no_writer ∷ [])
                ∙ append-nil (closed s.calls)),
    )
