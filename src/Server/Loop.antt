-- ===== src/Server/Loop.antt =====
-- The loop over the servers of a configuration, and what it adds to the servers and the cleanups.
use ozone.Prelude.{
  ℕ, ◌≤◌, ◌<◌, String, ◌≡◌, refl, sym, ap, ◌∙◌, inl, inr, Option-cases, Option, none, some, List,
  [], ◌∷◌, ◌++◌, map, append-nil, append_assoc, arith,
}
use mathlib.Core.List.{map-append}
use ozone.Prelude.Lists.{length}
use ozone.Prelude.Dict.{Dict}
use ozone.Prelude.Outcome.{Outcome, Ends, Ends->>=, Ends-map}
use ozone.Prelude.Result.{Result, fails, gives}
use ozone.Handler.Registry.{Handler, HandlerConfig, HandlerRegistry, Call}
use ozone.Handler.Walk.{After}
use ozone.Handler.Resolve.{handler_by_name}
use ozone.Handler.Spec.{HandlerSpec, handler_for_spec, handler_for_spec_terminates}
use ozone.Handler.Termination.{unresolved, IsAt}
use ozone.AccessLog as AccessLog
use ozone.AccessLog.{
  AccessLogs, no_writer, names_file, access_log_file, register_access_log_file, wrap_audit_handler,
}
use ozone.TlsConf.{TlsLib}
use ozone.TlsPlugins.{TlsPluginRegistry}
use ozone.Server.Http.{HttpServerConfig, AuditHandler, Conf, HttpServer, new_http_server}
use ozone.Server.Listeners.{IfGiven, IsServer, new_http_server-Ends}
use ozone.Server.Logs.{
  turned_on, server_of, name_if, log_of, logged, listed_cleanup, wrap_audit_handler-calls,
}
use ozone.Server.{
  http_server, log_cleanup, ServerLib, Instance, log_cleanups, server_meters, with_server,
  serve_handler, look_up_handler, next_server, make_servers,
}

unresolved-le : (c : Dict HandlerConfig) (p : List String) → unresolved c p ≤ length c
unresolved-le [] p = omega arith
unresolved-le ((k, v) ∷ c) p = ground (arith, unresolved-le c p)

module _ (tls : TlsLib) (lib : ServerLib tls) (handlers : Dict HandlerConfig) where
  -- The state after a round, and the result: the servers and the cleanups that have been added, the
  -- access logs that have been turned on, and a registry of handlers that is ready for the next
  -- look-up.
  pub record Grown (s t : Instance tls) (hs : List (HttpServer tls)) (logs : List AccessLog.Cleanup)
      : Type 0 where
    pub calls : t.logs.calls ≡ s.logs.calls ++ map turned_on logs
    pub servers : t.servers ≡ s.servers ++ map http_server hs
    pub cleanups : t.cleanups ≡ s.cleanups ++ map log_cleanup logs
    pub ready : IsAt handlers [] t.registry

  Grown-trans :
      {s t u : Instance tls} {hs ks : List (HttpServer tls)} {ls ms : List AccessLog.Cleanup}
      → Grown s t hs ls
      → Grown t u ks ms
      → Grown s u (hs ++ ks) (ls ++ ms)
  Grown-trans {hs = hs} {ks = ks} g h = record {
    calls = h.calls ∙ rw (g.calls, map-append, append_assoc) refl;
    servers = h.servers ∙ rw (g.servers, map-append, append_assoc) refl;
    cleanups = h.cleanups ∙ rw (g.cleanups, map-append, append_assoc) refl;
    ready = h.ready;
  }

  -- The meters of a server are those of its configuration.
  abbrev pub IsFor : String → HttpServerConfig → HttpServer tls → Type 0
  IsFor name cfg h =
      (handler : AuditHandler) × (handler.meters ≡ server_meters tls name cfg.metrics)
      × IsServer tls name cfg handler h

  -- One server for each configuration, in the same order.
  abbrev pub Served : Dict HttpServerConfig → List (HttpServer tls) → Type 0
  Served [] [] = Unit
  Served [] (h ∷ hs) = ⊥
  Served ((name, cfg) ∷ rest) [] = ⊥
  Served ((name, cfg) ∷ rest) (h ∷ hs) = IsFor name cfg h × Served rest hs

  stays :
      (s t : Instance tls)
      → t.servers ≡ s.servers
      → t.cleanups ≡ s.cleanups
      → t.logs.calls ≡ s.logs.calls
      → IsAt handlers [] t.registry
      → Grown s t [] []
  stays s t p q l ready = record {
    calls = l ∙ sym (append-nil s.logs.calls);
    servers = p ∙ sym (append-nil s.servers);
    cleanups = q ∙ sym (append-nil s.cleanups);
    ready = ready;
  }

  -- After a round and after the loop.
  Round : String → String → HttpServerConfig → Instance tls → Option String × Instance tls → Type 0
  Round dest name cfg s (none, t) =
      (h : HttpServer tls) × (ls : List AccessLog.Cleanup) × Grown s t (h ∷ []) ls
      × (IsFor name cfg h)
      × (map server_of ls ≡ name_if dest name)
  Round dest name cfg s (some e, t) = (ls : List AccessLog.Cleanup) × Grown s t [] ls

  unfoldable pub Looped :
      String → Dict HttpServerConfig → Instance tls → Option String × Instance tls → Type 0
  Looped default cfgs s (err, t) =
      (hs : List (HttpServer tls)) × (ls : List AccessLog.Cleanup) × Grown s t hs ls
      × (err ≡ none → Served cfgs hs × (map server_of ls ≡ logged default cfgs))

  -- The registry from before a round is not part of what the round promises.
  registry-Round :
      (dest name : String) (cfg : HttpServerConfig) (s : Instance tls) (r : HandlerRegistry)
      (a : Option String × Instance tls)
      → Round dest name cfg (record s { registry = r }) a
      → Round dest name cfg s a
  unfolding Round
  registry-Round dest name cfg s r (some e, t) (ls, g) =
      (ls, record { calls = g.calls; servers = g.servers; cleanups = g.cleanups; ready = g.ready })
  registry-Round dest name cfg s r (none, t) (h, ls, g, is, names) = (
    h,
    ls,
    record { calls = g.calls; servers = g.servers; cleanups = g.cleanups; ready = g.ready },
    is,
    names,
  )

  log_cleanups-map :
      (c : Option AccessLog.Cleanup) → log_cleanups tls c ≡ map log_cleanup (listed_cleanup c)
  log_cleanups-map none = refl
  log_cleanups-map (some c) = refl

  serve_handler-Round :
      (name : String) (cfg : HttpServerConfig) (spec : String) (h : Option Handler)
      (s : Instance tls)
      → IsAt handlers [] s.registry
      → Ends (Round spec name cfg s) (serve_handler tls lib name cfg spec h s)
  unfolding serve_handler Round
  serve_handler-Round name cfg spec h s ready =
      let number = length s.servers in
      let wrapped = wrap_audit_handler lib.can_open name number spec s.logs in
      let handler : AuditHandler = record {
        inner = h;
        meters = server_meters tls name cfg.metrics;
        number = number;
      } in
      Ends->>= (IfGiven tls (IsServer tls name cfg handler)) (Round spec name cfg s)
        (new_http_server tls lib.opens name cfg s.plugins handler) _
        (new_http_server-Ends tls lib.opens name cfg s.plugins handler) with_server-Round
    where
      with_server-Round :
          (a : Result (HttpServer tls) × TlsPluginRegistry (Conf tls))
          → IfGiven tls
              (IsServer tls name cfg (record {
                inner = h;
                meters = server_meters tls name cfg.metrics;
                number = length s.servers;
              }))
              a
          → Round spec name cfg s (
              with_server tls a.0 (record s {
                plugins = a.1;
                logs = (wrap_audit_handler lib.can_open name (length s.servers) spec s.logs).1;
                cleanups =
                    s.cleanups
                    ++ log_cleanups tls
                        (wrap_audit_handler lib.can_open name (length s.servers) spec s.logs).0;
              }))
      with_server-Round (fails e, r) u =
          let (c, t) = wrap_audit_handler lib.can_open name (length s.servers) spec s.logs in
          let (calls, names) =
            wrap_audit_handler-calls lib.can_open name (length s.servers) spec s.logs in
          (
            listed_cleanup c,
            record {
              calls = calls;
              servers = sym (append-nil s.servers);
              cleanups = ap (λ cs. s.cleanups ++ cs) (log_cleanups-map c);
              ready = ready;
            },
          )
      with_server-Round (gives x, r) u =
          let (c, t) = wrap_audit_handler lib.can_open name (length s.servers) spec s.logs in
          let (calls, names) =
            wrap_audit_handler-calls lib.can_open name (length s.servers) spec s.logs in
          (
            x,
            listed_cleanup c,
            record {
              calls = calls;
              servers = refl;
              cleanups = ap (λ cs. s.cleanups ++ cs) (log_cleanups-map c);
              ready = ready;
            },
            (_, refl, u),
            names,
          )

  module _ (fuel : ℕ) (enough : length handlers < fuel) where
    unfoldable pub by_name : Call
    by_name = handler_by_name lib.env fuel

    handler_for_spec-IsAt :
        (name : String) (spec : HandlerSpec) (r : HandlerRegistry)
        → IsAt handlers [] r
        → Ends (After (IsAt handlers [])) (handler_for_spec by_name name spec r)
    unfolding by_name
    handler_for_spec-IsAt name spec r i =
        let few : unresolved r.cfg r.resolution_path ≤ length handlers =
          rw (i.configured, i.path) (unresolved-le handlers []) in
        Ends-map (After (IsAt r.cfg r.resolution_path)) (After (IsAt handlers [])) _
          (λ (a, t) j. record { configured = j.configured ∙ i.configured; path = j.path ∙ i.path })
          (handler_for_spec_terminates lib.env fuel name spec r (omega arith))

    look_up_handler-Round :
        (name : String) (cfg : HttpServerConfig) (spec : String) (parsed : Result HandlerSpec)
        (s : Instance tls)
        → IsAt handlers [] s.registry
        → Ends (Round spec name cfg s) (look_up_handler tls lib by_name name cfg spec parsed s)
    unfolding look_up_handler Round
    look_up_handler-Round name cfg spec (fails e) s ready = ([], stays s s refl refl refl ready)
    look_up_handler-Round name cfg spec (gives h) s ready =
        Ends->>= (After (IsAt handlers [])) (Round spec name cfg s)
          (handler_for_spec by_name name h s.registry) _
          (handler_for_spec-IsAt name h s.registry ready)
          λ (a, r) i. elim (Option-cases a.err) [
            | inr (e, q) ↦ rw q ([], stays s (record s { registry = r }) refl refl refl i)
            | inl q ↦ rw q (
                Ends-map (Round spec name cfg (record s { registry = r })) (Round spec name cfg s) _
                  (registry-Round spec name cfg s r)
                  (serve_handler-Round name cfg spec a.handler (record s { registry = r }) i))
          ]

    next_server-Looped :
        (default name : String) (cfg : HttpServerConfig) (rest : Dict HttpServerConfig)
        (more : Instance tls → Outcome (Option String × Instance tls)) (s : Instance tls)
        → ((t : Instance tls) → IsAt handlers [] t.registry → Ends (Looped default rest t) (more t))
        → (a : Option String × Instance tls) → Round (log_of default cfg) name cfg s a
        → Ends (Looped default ((name, cfg) ∷ rest) s) (next_server tls lib more a)
    unfolding Round Looped next_server
    next_server-Looped default name cfg rest more s ih (some e, t) (ls, g) = ([], ls, g, λ h. cc)
    next_server-Looped default name cfg rest more s ih (none, t) (h, ls, g, is, names) =
        Ends-map (Looped default rest t) (Looped default ((name, cfg) ∷ rest) s) (more t)
          (λ (err, u) (hs, ms, k, all). (
            h ∷ hs,
            ls ++ ms,
            Grown-trans g k,
            λ e. ((is, (all e).0), rw (map-append, names, (all e).1) refl),
          ))
          (ih t g.ready)

    pub make_servers-Looped :
        (default : String) (cfgs : Dict HttpServerConfig) (s : Instance tls)
        → IsAt handlers [] s.registry
        → Ends (Looped default cfgs s) (make_servers tls lib by_name default cfgs s)
    unfolding make_servers Looped
    make_servers-Looped default [] s ready =
        ([], [], stays s s refl refl refl ready, λ e. (tt, refl))
    make_servers-Looped default ((name, cfg) ∷ rest) s ready =
        Ends->>= (Round (log_of default cfg) name cfg s) (Looped default ((name, cfg) ∷ rest) s) _
          (next_server tls lib (make_servers tls lib by_name default rest))
          (look_up_handler-Round name cfg (log_of default cfg) (lib.parse_handler cfg.handler) s
            ready)
          (next_server-Looped default name cfg rest (make_servers tls lib by_name default rest) s
            (make_servers-Looped default rest))
