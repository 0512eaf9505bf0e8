-- ===== src/Daemon/Init.antt =====
-- main.go, lines 64 to 231: the signals, the options, and Init and DisableInit.
pub mod Laws
use ozone.Prelude.{
  ℕ, String, ◌≡◌, refl, ap, ◌∙◌, Bool, true, false, Option, none, some, List, [], ◌∷◌, ◌++◌,
  append-nil, append_assoc, if◌then◌else◌,
}

-- The signals of HandledSignals, and any other.
pub data Signal : Type 0 where
  sigint : Signal
  sigterm : Signal
  sighup : Signal
  sigusr1 : Signal
  sigusr2 : Signal
  sigttin : Signal
  sigttou : Signal
  unhandled : ℕ → Signal

-- What a handler of a signal, or the control command, asks for.
pub data Action : Type 0 where
  exit : (graceful : Bool) → Action
  exit_graceful_with_timeout : (nanoseconds : ℕ) → Action
  notify : String → Action
  reload : Action
  replace_process : Signal → Action
  inc_level : Action
  dec_level : Action
  reopen_access_log_files : Action

-- HandledSignals
unfoldable pub handled_signals : Signal → Option Action
handled_signals sigint = some (exit false)
handled_signals sigterm = some (exit true)
handled_signals sighup = some reload
handled_signals sigusr2 = some (replace_process sigterm)
handled_signals sigttin = some inc_level
handled_signals sigttou = some dec_level
handled_signals sigusr1 = some reopen_access_log_files
handled_signals (unhandled n) = none

-- runcfg; the timeout is a number of nanoseconds.
pub record RunConfig : Type 0 where
  pub dryrun : Bool
  pub control_socket : String
  pub shutdown_timeout : ℕ
  pub ready_message : String

abbrev pub default_config : RunConfig
default_config = record {
  dryrun = false;
  control_socket = "./ozone-control.sock";
  shutdown_timeout = 0;
  ready_message = "Ready and serving";
}

abbrev pub RunOption : Type 0
RunOption = RunConfig → RunConfig

unfoldable pub dump_config : Bool → RunOption
dump_config dryrun c = record c { dryrun = dryrun }

unfoldable pub control_socket : String → RunOption
control_socket file c = record c { control_socket = file }

unfoldable pub shutdown_timeout : ℕ → RunOption
shutdown_timeout to c = record c { shutdown_timeout = to }

unfoldable pub sd_notify_ready_message : String → RunOption
sd_notify_ready_message msg c = record c { ready_message = msg }

unfoldable pub apply_options : List RunOption → RunConfig → RunConfig
apply_options [] c = c
apply_options (o ∷ os) c = apply_options os (o c)

-- What the initialisation sets up.
pub data Effect : Type 0 where
  set_logger : Effect
  register_command : String → Effect
  run_signal_handler : Effect

-- The variable cfg, whether initOnce has run, and the effects so far.
pub record Process : Type 0 where
  pub cfg : RunConfig
  pub initialized : Bool
  pub effects : List Effect

abbrev pub new_process : Process
new_process = record { cfg = default_config; initialized = false; effects = [] }

abbrev pub setup : Bool → List Effect
setup doinit =
    if doinit then set_logger ∷ register_command "daemon" ∷ run_signal_handler ∷ [] else []

-- initOnce.Do
unfoldable pub init_once : Bool → Process → Process
init_once doinit p =
    if p.initialized
    then p
    else record p { initialized = true; effects = p.effects ++ setup doinit }

unfoldable pub internal_init : Bool → List RunOption → Process → Process
unfolding apply_options init_once
internal_init doinit opts p = init_once doinit (record p { cfg = apply_options opts p.cfg })

-- A call of Init with its options, or of DisableInit.
pub data InitCall : Type 0 where
  init : List RunOption → InitCall
  disable_init : InitCall

unfoldable pub run_init : InitCall → Process → Process
unfolding internal_init
run_init (init opts) p = internal_init true opts p
run_init disable_init p = internal_init false [] p

unfoldable pub run_inits : List InitCall → Process → Process
unfolding run_init
run_inits [] p = p
run_inits (c ∷ cs) p = run_inits cs (run_init c p)

-- All options of the calls, in their order, and whether the first call was one of Init.
abbrev pub options_of : List InitCall → List RunOption
options_of [] = []
options_of (init opts ∷ cs) = opts ++ options_of cs
options_of (disable_init ∷ cs) = options_of cs

abbrev pub inits_first : List InitCall → Bool
inits_first [] = false
inits_first (init opts ∷ cs) = true
inits_first (disable_init ∷ cs) = false
