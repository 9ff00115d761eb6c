-- ===== src/Cli/Parse/Exclusive.antt =====
-- One daemon at a time: when `parse_options` returns 0, which lets `main` start a daemon.
use robotd.Common.{
  ℕ, ◌≡◌, ◌≢◌, Bytes, true, false, pos, none, some, List, [], ◌∷◌, arith, str_eq, inl, inr,
  Bool-cases,
}
use robotd.Definitions.{sighup, sigterm}
use robotd.Posix.{Os, IsPosix}
use robotd.Cli.State.{Process}
use robotd.Cli.Options.{option_key}
use robotd.Cli.Load.{option_load, Exit, ret}
use robotd.Cli.Parse.{Value, run_daemon, daemon_process, command, run_option, parse_options, main}
use robotd.Cli.Parse.Running.{IsLive, HasConfig, run_option-live, run_option-command}

-- `parse_options` lets `main` go on.
abbrev pub Starts : Exit → Type 0
Starts e = e ≡ ret (pos 0)

module _ (os : Os) (posix : IsPosix os) where
  pub command-exclusive :
      (arg : Bytes) (value : Value) (pid : ℕ) (s : Process os)
      → str_eq arg (option_key 2) ≡ false
      → ¬ Starts (command os arg value pid s).0
  unfolding command
  command-exclusive arg none pid s h =
      ground (arith, posix.kill_errno s.world pid sighup, posix.kill_errno s.world pid sigterm)
  command-exclusive arg (some path) pid s h = ground (
    arith,
    posix.kill_errno s.world pid sighup,
    posix.kill_errno s.world pid sigterm,
    posix.kill_errno (option_load os (record s { config_file = path })).1.world pid sighup,
  )

  module _ (s : Process os) (text : Bytes) (pid : ℕ) (live : IsLive os s text pid) where
    pub help-exclusive :
        (arg : Bytes) (value : Value)
        → str_eq arg (option_key 5) ≡ true
        → ¬ Starts (run_option os arg value s).0
    unfolding run_option
    help-exclusive arg value h = ground arith

    pub status-exclusive :
        (arg : Bytes) (value : Value)
        → str_eq arg (option_key 5) ≡ false
        → str_eq arg (option_key 4) ≡ true
        → ¬ Starts (run_option os arg value s).0
    unfolding daemon_process
    status-exclusive arg value help status =
        rw (run_option-live os s text pid live arg value help) (ground arith)

    module _ (saved : Bytes) (c : ℕ) (path : Bytes) (config : HasConfig os s saved c path) where
      run_option-exclusive :
          (arg : Bytes) (value : Value)
          → str_eq arg (option_key 2) ≡ false
          → ¬ Starts (run_option os arg value s).0
      run_option-exclusive arg value h = elim (Bool-cases (str_eq arg (option_key 5))) [
        | inl help ↦ help-exclusive arg value help
        | inr other ↦ elim (Bool-cases (str_eq arg (option_key 4))) [
          | inl status ↦ status-exclusive arg value other status
          | inr more ↦
              rw (run_option-command os s text pid live saved c path config arg value other more)
                (command-exclusive arg value pid (record s { config_file = c ∷ path }) h)
        ]
      ]

      -- On a system that is IsPosix, while a daemon runs (its number, read from the PID file,
      -- is listed in /proc) and CONFIG_LOAD holds a path that fits the buffer, no command line
      -- whose option is not restart makes main start a second daemon, whatever system calls
      -- fail.
      pub main-exclusive :
          (program arg : Bytes) (rest : List Bytes) (file : Bytes)
          → str_eq arg (option_key 2) ≡ false
          → (main os (program ∷ arg ∷ rest) s).0 ≢ run_daemon file
      unfolding main parse_options
      main-exclusive program arg [] file h = ground (arith, run_option-exclusive arg none h)
      main-exclusive program arg (path' ∷ []) file h =
          ground (arith, run_option-exclusive arg (some path') h)
      main-exclusive program arg (path' ∷ extra ∷ rest) file h = ground arith
