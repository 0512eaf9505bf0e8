-- ===== src/Daemon/Laws.antt =====
-- What Main does after any calls of Init and DisableInit.
use ozone.Prelude.{
  Bool, false, none, some, map, subst, inl, inr, Option-cases, ◌≡◌, refl, sym, ap, ◌∙◌, true,
  Option, String, List, [], ◌∷◌, ◌++◌, append-nil, append_assoc, if◌then◌else◌,
}
use ozone.Prelude.Outcome.{Outcome, returns, panics, exhausted, ◌>>=◌}
use ozone.TlsConf.{TlsLib}
use ozone.Server.{Config, Instantiated}
use ozone.Daemon.Init.{
  RunConfig, set_logger, register_command, run_signal_handler, RunOption, default_config,
  apply_options, Process, new_process, setup, internal_init, InitCall, init, disable_init, run_init,
  run_inits, options_of, inits_first,
}
use ozone.Daemon.Init.Laws.{run_inits_lem}
use ozone.Daemon.Main.{
  Configuration, DaemonOptions, MainResult, refused, dumped, ran, dry_result, run_options,
  config_func, dryrun_func, ozone_main,
}
use ozone.Daemon.Options.{
  GivenOption, option_of, last_dump, last_socket, last_timeout, last_message, apply_options-last,
}

-- A call of Init after the others.
run_inits-append :
    (cs : List InitCall) (opts : List RunOption) (p : Process)
    → run_inits (cs ++ init opts ∷ []) p ≡ internal_init true opts (run_inits cs p)
unfolding run_inits run_init
run_inits-append [] opts p = refl
run_inits-append (c ∷ cs) opts p = run_inits-append cs opts (run_init c p)

options_of-append :
    (cs : List InitCall) (opts : List RunOption)
    → options_of (cs ++ init opts ∷ []) ≡ options_of cs ++ opts
options_of-append [] opts = append-nil opts
options_of-append (init os ∷ cs) opts =
    ap (λ ps. os ++ ps) (options_of-append cs opts) ∙ sym (append_assoc os (options_of cs) opts)
options_of-append (disable_init ∷ cs) opts = options_of-append cs opts

abbrev pub process_after : List InitCall → List RunOption → Process
process_after cs opts = record {
  cfg = apply_options (options_of cs ++ opts) default_config;
  initialized = true;
  effects = setup (inits_first (cs ++ init opts ∷ []));
}

run_inits_nonempty :
    (cs : List InitCall) (opts : List RunOption)
    → run_inits (cs ++ init opts ∷ []) new_process ≡ record {
      cfg = apply_options (options_of (cs ++ init opts ∷ [])) default_config;
      initialized = true;
      effects = setup (inits_first (cs ++ init opts ∷ []));
    }
run_inits_nonempty [] opts = run_inits_lem (init opts) []
run_inits_nonempty (c ∷ cs) opts = run_inits_lem c (cs ++ init opts ∷ [])

init_last :
    (cs : List InitCall) (opts : List RunOption)
    → internal_init true opts (run_inits cs new_process) ≡ process_after cs opts
init_last cs opts =
    sym (run_inits-append cs opts new_process)
    ∙ run_inits_nonempty cs opts
    ∙ ap
        (λ os. record {
          cfg = apply_options os default_config;
          initialized = true;
          effects = setup (inits_first (cs ++ init opts ∷ []));
        })
        (options_of-append cs opts)

module _ (tls : TlsLib) where
  -- The end of a dry run: the error of the configuration, or else the configuration.
  abbrev pub IsDryResult : Option String → Option Config → MainResult tls → Type 0
  IsDryResult (some e) c r = r ≡ refused e
  IsDryResult none c r = r ≡ dumped c

  abbrev pub DryEnds :
      Outcome (Instantiated tls) → Process → Outcome (MainResult tls × Process) → Type 0
  DryEnds (returns i) p o =
      (r : MainResult tls) × (o ≡ returns (r, p)) × IsDryResult i.err i.config r
  DryEnds panics p o = o ≡ panics
  DryEnds exhausted p o = o ≡ exhausted

  -- What the daemon gets when it asks for its configuration.
  abbrev pub Configures : Outcome (Instantiated tls) → Outcome (Configuration tls) → Type 0
  Configures (returns i) c =
      c ≡ returns (record { servers = i.servers; cleanups = i.cleanups; err = i.err })
  Configures panics c = c ≡ panics
  Configures exhausted c = c ≡ exhausted

  -- The end of a run of the daemon, with its options.
  abbrev pub DaemonEnds :
      (run : DaemonOptions tls → Option String)
      → Outcome (Instantiated tls)
      → List GivenOption
      → Process
      → Outcome (MainResult tls × Process)
      → Type 0
  DaemonEnds run load gs p o =
      (d : DaemonOptions tls) × (o ≡ returns (ran d (run d), p))
      × (d.control_socket ≡ last_socket gs "./ozone-control.sock")
      × (d.shutdown_timeout ≡ last_timeout gs 0)
      × (d.ready_message ≡ last_message gs "Ready and serving")
      × Configures load d.configurator

  abbrev pub MainEnds :
      (dry : Bool) (run : DaemonOptions tls → Option String)
      → Outcome (Instantiated tls)
      → List GivenOption
      → Process
      → Outcome (MainResult tls × Process)
      → Type 0
  MainEnds true run load gs p o = DryEnds load p o
  MainEnds false run load gs p o = DaemonEnds run load gs p o

  -- What is set up, if the first call was not DisableInit.
  abbrev pub IsSetUp : (first : Bool) → Process → Type 0
  IsSetUp true p =
      (p.initialized ≡ true)
      × (p.effects ≡ set_logger ∷ register_command "daemon" ∷ run_signal_handler ∷ [])
  IsSetUp false p = (p.initialized ≡ true) × (p.effects ≡ [])

  -- Main, once the process is initialised.
  abbrev main_by :
      Bool
      → (run : DaemonOptions tls → Option String) → Outcome (Instantiated tls)
      → Process
      → Outcome (MainResult tls × Process)
  main_by dry run load p =
      if dry
      then (dryrun_func tls load >>= λ d. returns (dry_result tls d, p))
      else let options = run_options tls p.cfg (config_func tls load) in
        returns (ran options (run options), p)

  dry_run-DryEnds :
      (load : Outcome (Instantiated tls)) (p : Process)
      → DryEnds load p (dryrun_func tls load >>= λ d. returns (dry_result tls d, p))
  unfolding dryrun_func
  dry_run-DryEnds (returns i) p = elim (Option-cases i.err) [
    | inl e ↦ rw e (dumped i.config, refl, refl)
    | inr (s, e) ↦ rw e (refused s, refl, refl)
  ]
  dry_run-DryEnds panics p = refl
  dry_run-DryEnds exhausted p = refl

  config_func-Configures :
      (load : Outcome (Instantiated tls)) → Configures load (config_func tls load)
  unfolding config_func
  config_func-Configures (returns i) = refl
  config_func-Configures panics = refl
  config_func-Configures exhausted = refl

  main_by-MainEnds :
      (dry : Bool) (run : DaemonOptions tls → Option String) (load : Outcome (Instantiated tls))
      (gs : List GivenOption) (p : Process)
      → p.cfg ≡ record {
        dryrun = dry;
        control_socket = last_socket gs "./ozone-control.sock";
        shutdown_timeout = last_timeout gs 0;
        ready_message = last_message gs "Ready and serving";
      }
      → MainEnds dry run load gs p (main_by p.cfg.dryrun run load p)
  main_by-MainEnds true run load gs p e =
      subst (λ b. MainEnds true run load gs p (main_by b run load p)) (sym (ap (λ c. c.dryrun) e))
        (dry_run-DryEnds load p)
  main_by-MainEnds false run load gs p e =
      subst (λ b. MainEnds false run load gs p (main_by b run load p)) (sym (ap (λ c. c.dryrun) e))
        (
          run_options tls p.cfg (config_func tls load),
          refl,
          ap (λ c. c.control_socket) e,
          ap (λ c. c.shutdown_timeout) e,
          ap (λ c. c.ready_message) e,
          config_func-Configures load,
        )

  setup-IsSetUp :
      (first : Bool) (c : RunConfig)
      → IsSetUp first (record { cfg = c; initialized = true; effects = setup first })
  setup-IsSetUp true c = (refl, refl)
  setup-IsSetUp false c = (refl, refl)

  -- After any calls of Init and DisableInit, Main takes the options of the calls of Init in their
  -- order and then its own, and of each kind the last one counts, or else the default. If the last
  -- option to dump the configuration is on, it ends with the error of the configuration or, if there
  -- is none, with the configuration; else it runs the daemon once, with the last control socket, the
  -- last timeout, the last message and the servers, the cleanups and the error of the configuration,
  -- and ends with what that gives. The logger, the control command and the signal handler are set up
  -- once, if Main or a call of Init came first, and else not at all.
  pub ozone_main_lem :
      (run : DaemonOptions tls → Option String) (load : Outcome (Instantiated tls))
      (cs : List InitCall) (opts : List RunOption) (gs : List GivenOption)
      → options_of cs ++ opts ≡ map option_of gs
      → (p : Process) × MainEnds
          (last_dump gs false)
          run
          load
          gs
          p
          (ozone_main tls run load opts (run_inits cs new_process))
        × IsSetUp (inits_first (cs ++ init opts ∷ [])) p
  unfolding ozone_main
  ozone_main_lem run load cs opts gs given =
      let p = process_after cs opts in
      let cfg =
        ap (λ os. apply_options os default_config) given ∙ apply_options-last gs default_config in
      (
        p,
        subst (MainEnds (last_dump gs false) run load gs p)
            (sym (ap (λ q. main_by q.cfg.dryrun run load q) (init_last cs opts)))
            (main_by-MainEnds (last_dump gs false) run load gs p cfg),
        setup-IsSetUp (inits_first (cs ++ init opts ∷ [])) p.cfg,
      )
