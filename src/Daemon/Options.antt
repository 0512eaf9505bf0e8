-- ===== src/Daemon/Options.antt =====
-- The options of main.go, of which the last of each kind counts.
use ozone.Prelude.{ℕ, Bool, map, ◌≡◌, refl, String, List, [], ◌∷◌}
use ozone.Daemon.Init.{
  RunConfig, dump_config, control_socket, shutdown_timeout, sd_notify_ready_message, RunOption,
  apply_options,
}

-- The options that main.go has.
pub data GivenOption : Type 0 where
  given_dump : Bool → GivenOption
  given_socket : String → GivenOption
  given_timeout : ℕ → GivenOption
  given_message : String → GivenOption

abbrev pub option_of : GivenOption → RunOption
option_of (given_dump b) = dump_config b
option_of (given_socket f) = control_socket f
option_of (given_timeout n) = shutdown_timeout n
option_of (given_message m) = sd_notify_ready_message m

-- The last option of each kind.
abbrev pub last_dump : List GivenOption → Bool → Bool
last_dump [] d = d
last_dump (given_dump b ∷ gs) d = last_dump gs b
last_dump (given_socket f ∷ gs) d = last_dump gs d
last_dump (given_timeout n ∷ gs) d = last_dump gs d
last_dump (given_message m ∷ gs) d = last_dump gs d

abbrev pub last_socket : List GivenOption → String → String
last_socket [] d = d
last_socket (given_dump b ∷ gs) d = last_socket gs d
last_socket (given_socket f ∷ gs) d = last_socket gs f
last_socket (given_timeout n ∷ gs) d = last_socket gs d
last_socket (given_message m ∷ gs) d = last_socket gs d

abbrev pub last_timeout : List GivenOption → ℕ → ℕ
last_timeout [] d = d
last_timeout (given_dump b ∷ gs) d = last_timeout gs d
last_timeout (given_socket f ∷ gs) d = last_timeout gs d
last_timeout (given_timeout n ∷ gs) d = last_timeout gs n
last_timeout (given_message m ∷ gs) d = last_timeout gs d

abbrev pub last_message : List GivenOption → String → String
last_message [] d = d
last_message (given_dump b ∷ gs) d = last_message gs d
last_message (given_socket f ∷ gs) d = last_message gs d
last_message (given_timeout n ∷ gs) d = last_message gs d
last_message (given_message m ∷ gs) d = last_message gs m

pub apply_options-last :
    (gs : List GivenOption) (c : RunConfig)
    → apply_options (map option_of gs) c ≡ record {
      dryrun = last_dump gs c.dryrun;
      control_socket = last_socket gs c.control_socket;
      shutdown_timeout = last_timeout gs c.shutdown_timeout;
      ready_message = last_message gs c.ready_message;
    }
unfolding apply_options dump_config control_socket shutdown_timeout sd_notify_ready_message
apply_options-last [] c = refl
apply_options-last (given_dump b ∷ gs) c = apply_options-last gs (record c { dryrun = b })
apply_options-last (given_socket f ∷ gs) c = apply_options-last gs (record c { control_socket = f })
apply_options-last (given_timeout n ∷ gs) c =
    apply_options-last gs (record c { shutdown_timeout = n })
apply_options-last (given_message m ∷ gs) c = apply_options-last gs (record c { ready_message = m })
