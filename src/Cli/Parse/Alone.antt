-- ===== src/Cli/Parse/Alone.antt =====
-- One daemon at a time, whatever `CONFIG_LOAD` holds, if only it is missing or has a word in it.
use robotd.Common.{
  ℕ, ◌≡◌, ◌≢◌, Bytes, Bool, Bool-cases, true, false, pos, none, some, List, [], ◌∷◌, arith, inl,
  inr, str_eq,
}
use robotd.Directories.{config_load}
use robotd.Posix.{Os, IsPosix, opened-cases}
use robotd.Cli.State.{Process}
use robotd.Cli.Options.{option_key}
use robotd.Cli.Scan.{scan_word}
use robotd.Cli.Load.{make_run_dir, ret}
use robotd.Cli.Load.Saved.{make_run_dir_errno}
use robotd.Cli.Load.Word.{Saves}
use robotd.Cli.Parse.{
  Value, run_daemon, restore, recreate, check_saved, daemon_process, run_option, parse_options,
  main, fresh_line,
}
use robotd.Cli.Parse.Running.{IsLive, run_option-live}
use robotd.Cli.Parse.Exclusive.{Starts, command-exclusive, help-exclusive, status-exclusive}

-- The command "restart", which stands in `argv[1]`.
abbrev pub is_restart : List Bytes → Bool
is_restart (program ∷ arg ∷ rest) = str_eq arg (option_key 2)
is_restart _ = false

module _ (os : Os) (posix : IsPosix os) where
  restore-goes_on :
      (text : Bytes) (s : Process os)
      → scan_word text ≢ []
      → (restore os text s).0 ≢ some (ret (pos 0))
  unfolding restore
  restore-goes_on text s full h = ground arith

  recreate-goes_on :
      (ready : Bool) (s : Process os)
      → (ready ≡ false → s.errno ≢ 0)
      → (recreate os ready s).0 ≢ some (ret (pos 0))
  unfolding recreate
  recreate-goes_on false s e h = ground arith
  recreate-goes_on true s e h =
      ground (arith, posix.write_errno s.world config_load (fresh_line os))

  -- What ends a command here is an error, and not 0.
  check_saved-goes_on :
      (s : Process os) → Saves os s.world → (check_saved os s).0 ≢ some (ret (pos 0))
  unfolding check_saved
  check_saved-goes_on s h e = elim (opened-cases (os.read s.world config_load)) [
    | inl (text, read) ↦ ground (arith, read, restore-goes_on text s (rw read at h))
    | inr (n, read) ↦
        let failed = record s { errno = n } in
        let (ready, t) = make_run_dir os failed in
        ground (
          arith,
          read,
          posix.read_errno s.world config_load,
          recreate-goes_on ready t (make_run_dir_errno os posix failed),
        )
  ]

  module _ (s : Process os) (text : Bytes) (pid : ℕ) (live : IsLive os s text pid)
      (saves : Saves os s.world) where
    daemon_process-alone :
        (arg : Bytes) (value : Value)
        → str_eq arg (option_key 2) ≡ false
        → str_eq arg (option_key 4) ≡ false
        → ¬ Starts (daemon_process os arg value pid s).0
    unfolding daemon_process
    daemon_process-alone arg value h other = ground (
      arith,
      check_saved-goes_on s saves,
      command-exclusive os posix arg value pid (check_saved os s).1 h,
    )

    run_option-alone :
        (arg : Bytes) (value : Value)
        → str_eq arg (option_key 2) ≡ false
        → ¬ Starts (run_option os arg value s).0
    run_option-alone arg value h = elim (Bool-cases (str_eq arg (option_key 5))) [
      | inl help ↦ help-exclusive os posix s text pid live arg value help
      | inr other ↦ elim (Bool-cases (str_eq arg (option_key 4))) [
        | inl status ↦ status-exclusive os posix s text pid live arg value other status
        | inr more ↦
            rw (run_option-live os s text pid live arg value other)
              (daemon_process-alone arg value h more)
      ]
    ]

    -- On a system that is IsPosix, while a daemon runs (its number, read from the PID file, is
    -- listed in /proc) and CONFIG_LOAD, if it can be read, has a word in it, no command line
    -- but restart makes main start a second daemon, whatever system calls fail.
    pub main-alone :
        (argv : List Bytes) (file : Bytes)
        → is_restart argv ≡ false
        → (main os argv s).0 ≢ run_daemon file
    unfolding main parse_options
    main-alone [] file h = ground arith
    main-alone (program ∷ []) file h = ground arith
    main-alone (program ∷ arg ∷ []) file h = ground (arith, run_option-alone arg none h)
    main-alone (program ∷ arg ∷ path ∷ []) file h =
        ground (arith, run_option-alone arg (some path) h)
    main-alone (program ∷ arg ∷ path ∷ extra ∷ rest) file h = ground arith
