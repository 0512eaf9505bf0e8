-- ===== src/Daemon/Main.antt =====
-- main.go, loadConfig and ozonemain: a dry run, or a run of the daemon.
use ozone.Prelude.{ℕ, String, true, Option, none, some, List, if◌then◌else◌}
use ozone.Prelude.Outcome.{Outcome, returns, ◌>>=◌}
use ozone.TlsConf.{TlsLib}
use ozone.Server.{Config, Server, ServerCleanup, Instantiated}
use ozone.Daemon.Init.{RunOption, RunConfig, Process, internal_init}

module _ (tls : TlsLib) where
  -- The results of daemon.ConfigFunc and of dryRunFunc.
  pub record Configuration : Type 0 where
    pub servers : List (Server tls)
    pub cleanups : List (ServerCleanup tls)
    pub err : Option String

  pub record DryRun : Type 0 where
    pub config : Option Config
    pub err : Option String

  -- loadConfig: the two functions, of one instantiation of the servers.
  unfoldable pub config_func : Outcome (Instantiated tls) → Outcome Configuration
  config_func load =
      load >>= λ i. returns (record { servers = i.servers; cleanups = i.cleanups; err = i.err })

  unfoldable pub dryrun_func : Outcome (Instantiated tls) → Outcome DryRun
  dryrun_func load = load >>= λ i. returns (record { config = i.config; err = i.err })

  -- The options of daemon.Run; it notifies systemd with the message and signals the parent.
  pub record DaemonOptions : Type 0 where
    pub configurator : Outcome Configuration
    pub control_socket : String
    pub shutdown_timeout : ℕ
    pub ready_message : String

  -- How Main ends: with an error of the configuration, with the dump of one, or with what daemon.Run
  -- gives for its options.
  pub data MainResult : Type 0 where
    refused : String → MainResult
    dumped : Option Config → MainResult
    ran : DaemonOptions → Option String → MainResult

  abbrev pub dry_result : DryRun → MainResult
  dry_result d = elim d.err [ some e ↦ refused e | none ↦ dumped d.config ]

  abbrev pub run_options : RunConfig → Outcome Configuration → DaemonOptions
  run_options cfg configurator = record {
    configurator = configurator;
    control_socket = cfg.control_socket;
    shutdown_timeout = cfg.shutdown_timeout;
    ready_message = cfg.ready_message;
  }

  -- ozonemain; `load` is the instantiation of the servers from the configuration, and `run` is
  -- daemon.Run.
  unfoldable pub ozone_main :
      (run : DaemonOptions → Option String)
      → (load : Outcome (Instantiated tls)) → List RunOption
      → Process
      → Outcome (MainResult × Process)
  unfolding internal_init config_func dryrun_func
  ozone_main run load opts p =
      let p' = internal_init true opts p in
      let options = run_options p'.cfg (config_func load) in
      if p'.cfg.dryrun
      then (dryrun_func load >>= λ d. returns (dry_result d, p'))
      else returns (ran options (run options), p')
