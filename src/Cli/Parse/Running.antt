-- ===== src/Cli/Parse/Running.antt =====
-- What a command does while the daemon is running: its number stands in the PID file and in /proc.
use robotd.Common.{
  ℕ, ◌<◌, ◌≡◌, refl, Bytes, true, false, ◌∙◌, none, some, List, ◌∷◌, length, arith, str_eq,
}
use robotd.Definitions.{sighup, sigterm}
use robotd.Directories.{pid_file, config_load}
use robotd.Posix.{Os, opened}
use robotd.Cli.State.{Process}
use robotd.Cli.Options.{option_key}
use robotd.Cli.Scan.{scan_u16, scan_word, find_process}
use robotd.Cli.Parse.{Value, check_saved, command, daemon_process, read_pid, run_option}

module _ (os : Os) where
  -- The PID file holds the number of a process that /proc lists.
  pub record IsLive (s : Process os) (text : Bytes) (pid : ℕ) : Type 0 where
    pub readable : os.read s.world pid_file ≡ opened text
    pub numbered : scan_u16 text ≡ some pid
    pub names : List Bytes
    pub opens : os.proc s.world ≡ some names
    pub listed : find_process pid names ≡ true

  -- `CONFIG_LOAD` holds a path that fits into `tmp[256]`.
  pub record HasConfig (s : Process os) (text : Bytes) (c : ℕ) (path : Bytes) : Type 0 where
    pub readable : os.read s.world config_load ≡ opened text
    pub named : scan_word text ≡ c ∷ path
    pub fits : length path < 255

  module _ (s : Process os) (text : Bytes) (pid : ℕ) (live : IsLive s text pid) where
    read_pid-live :
        (arg : Bytes) (value : Value)
        → read_pid os arg value (scan_u16 text) s ≡ daemon_process os arg value pid s
    unfolding read_pid
    read_pid-live arg value = ground arith

    pub run_option-live :
        (arg : Bytes) (value : Value)
        → str_eq arg (option_key 5) ≡ false
        → run_option os arg value s ≡ daemon_process os arg value pid s
    unfolding run_option
    run_option-live arg value h = ground (arith, read_pid-live arg value)

    module _ (saved : Bytes) (c : ℕ) (path : Bytes) (config : HasConfig s saved c path) where
      check_saved-config : check_saved os s ≡ (none, record s { config_file = c ∷ path })
      unfolding check_saved
      check_saved-config = ground arith

      pub run_option-command :
          (arg : Bytes) (value : Value)
          → str_eq arg (option_key 5) ≡ false
          → str_eq arg (option_key 4) ≡ false
          → run_option os arg value s
            ≡ command os arg value pid (record s { config_file = c ∷ path })
      unfolding daemon_process
      run_option-command arg value help status =
          run_option-live arg value help ∙ ground (arith, check_saved-config)

      status_world : (value : Value) → (run_option os (option_key 4) value s).1.world ≡ s.world
      unfolding daemon_process str_eq
      status_world value = rw (run_option-live (option_key 4) value refl) refl

      help_world : (value : Value) → (run_option os (option_key 5) value s).1.world ≡ s.world
      unfolding run_option str_eq
      help_world value = refl

      -- With the daemon running and a readable CONFIG_LOAD, reload sends it SIGHUP, stop and
      -- restart send it SIGTERM, and these are the only changes of the world; status and help
      -- change nothing.
      pub run_option-world :
          (value : Value)
          → ((run_option os (option_key 1) value s).1.world ≡ (os.kill s.world pid sighup).1)
            × ((run_option os (option_key 2) value s).1.world ≡ (os.kill s.world pid sigterm).1)
            × ((run_option os (option_key 3) value s).1.world ≡ (os.kill s.world pid sigterm).1)
            × ((run_option os (option_key 4) value s).1.world ≡ s.world)
            × ((run_option os (option_key 5) value s).1.world ≡ s.world)
      unfolding command str_eq
      run_option-world value = (
        rw (run_option-command (option_key 1) value refl refl) (ground arith),
        rw (run_option-command (option_key 2) value refl refl) (ground arith),
        rw (run_option-command (option_key 3) value refl refl) (ground arith),
        status_world value,
        help_world value,
      )
