-- ===== src/Daemon/Tests.antt =====
-- Commands, signals, and the theorem on Main.
use ozone.Prelude.{◌≡◌, ◌^◌, refl, true, false, none, some, List, [], ◌∷◌}
use ozone.Prelude.Outcome.{returns, panics, Ends}
use ozone.AccessLog.{AccessLogs}
use ozone.Server.{nothing_with}
use ozone.TlsConf.{TlsLib}
use ozone.Prelude.Result.{fails}
use ozone.Daemon.Init.{
  exit_graceful_with_timeout, notify, reload, handled_signals, sighup, InitCall, init, disable_init,
  control_socket, dump_config, new_process, run_inits, Process,
}
use ozone.Daemon.Command.{invoke}
use ozone.Daemon.Main.{DaemonOptions, ran, ozone_main}
use ozone.Daemon.Options.{given_socket, given_dump}
use ozone.Daemon.Laws.{MainEnds, IsSetUp, ozone_main_lem}

abbrev tls : TlsLib
tls = record {
  Cert = Unit {0};
  read_file = λ f. fails "no files";
  certs_of_pem = λ pem. none;
  load_pair = λ crt key. fails "no files";
  openssl = λ spec. fails "no openssl";
}

no_arguments : invoke [] ≡ panics
unfolding invoke
no_arguments = refl

stop_ten :
    invoke ("stop" ∷ "10" ∷ [])
    ≡ returns (record {
      err = none;
      out = "";
      actions = notify "STOPPING=1" ∷ exit_graceful_with_timeout (10 ^ 10) ∷ [];
    })
unfolding invoke
stop_ten = refl

stop_text :
    invoke ("stop" ∷ "soon" ∷ [])
    ≡ returns (record {
      err = some "strconv.Atoi: parsing \"soon\": invalid syntax";
      out = "";
      actions = [];
    })
unfolding invoke
stop_text = refl

hangup : handled_signals sighup ≡ some reload
unfolding handled_signals
hangup = refl

abbrev calls : List InitCall
calls = init (control_socket "" ∷ []) ∷ disable_init ∷ []

abbrev no_logs : AccessLogs
no_logs = record { registry = []; handlers = []; calls = []; next = 0 }

abbrev options : DaemonOptions tls
options = record {
  configurator = returns (record { servers = []; cleanups = []; err = none });
  control_socket = "./ozone-control.sock";
  shutdown_timeout = 0;
  ready_message = "Ready and serving";
}

-- A control socket for Init, and a dry run for Main.
ozone_main_example :
    (p : Process) × MainEnds tls true
      (λ o. none)
      (returns (nothing_with tls none none no_logs))
      (given_socket "" ∷ given_dump true ∷ [])
      p
      (ozone_main tls
        (λ o. none)
        (returns (nothing_with tls none none no_logs))
        (dump_config true ∷ [])
        (run_inits calls new_process))
    × IsSetUp tls true p
ozone_main_example =
    ozone_main_lem tls (λ o. none) (returns (nothing_with tls none none no_logs)) calls
      (dump_config true ∷ []) (given_socket "" ∷ given_dump true ∷ []) refl

-- The last word on a dry run counts.
dry_no_more :
    Ends
      (λ (r, p). r ≡ ran options none)
      (ozone_main tls
        (λ o. none)
        (returns (nothing_with tls none none no_logs))
        (dump_config true ∷ dump_config false ∷ [])
        new_process)
unfolding ozone_main dump_config
dry_no_more = refl
