-- ===== src/Cli/Parse/Frame.antt =====
-- While a daemon runs, no command line changes the PID file.
use robotd.Common.{
  ℕ, ◌≡◌, refl, Bytes, Bool, Bool-cases, true, false, none, some, List, [], ◌∷◌, arith, str_eq, inl,
  inr,
}
use robotd.Definitions.{sighup, sigterm}
use robotd.Directories.{pid_file, config_load}
use robotd.Posix.{Os, opened-cases}
use robotd.Posix.Files.{IsFiles}
use robotd.Cli.State.{Process}
use robotd.Cli.Options.{option_key}
use robotd.Cli.Load.{option_load, make_run_dir}
use robotd.Cli.Load.Frame.{SamePid, write_pid_file, make_run_dir-SamePid, option_load-SamePid}
use robotd.Cli.Parse.{
  Value, restore, recreate, check_saved, command, daemon_process, run_option, parse_options, main,
  fresh_line,
}
use robotd.Cli.Parse.Running.{IsLive, run_option-live}

module _ (os : Os) (files : IsFiles os) where
  restore-SamePid : (text : Bytes) (s : Process os) → SamePid os s (restore os text s).1
  unfolding restore
  restore-SamePid text s = ground (arith, write_pid_file os files s.world s.config_file)

  recreate-SamePid : (ready : Bool) (s : Process os) → SamePid os s (recreate os ready s).1
  unfolding recreate
  recreate-SamePid false s = ground arith
  recreate-SamePid true s = ground (arith, write_pid_file os files s.world (fresh_line os))

  check_saved-SamePid : (s : Process os) → SamePid os s (check_saved os s).1
  unfolding check_saved
  check_saved-SamePid s = elim (opened-cases (os.read s.world config_load)) [
    | inl (text, e) ↦ ground (arith, e, restore-SamePid text s)
    | inr (n, e) ↦
        let failed = record s { errno = n } in
        let (ready, t) = make_run_dir os failed in
        ground (arith, e, make_run_dir-SamePid os files failed, recreate-SamePid ready t)
  ]

  command-SamePid :
      (arg : Bytes) (value : Value) (pid : ℕ) (s : Process os)
      → SamePid os s (command os arg value pid s).1
  unfolding command
  command-SamePid arg none pid s = ground (
    arith,
    files.kill_read s.world pid sighup pid_file,
    files.kill_read s.world pid sigterm pid_file,
  )
  command-SamePid arg (some path) pid s =
      let t = (option_load os (record s { config_file = path })).1 in
      ground (
        arith,
        files.kill_read s.world pid sighup pid_file,
        files.kill_read s.world pid sigterm pid_file,
        files.kill_read t.world pid sighup pid_file,
        option_load-SamePid os files (record s { config_file = path }),
      )

  help-SamePid :
      (arg : Bytes) (value : Value) (s : Process os)
      → str_eq arg (option_key 5) ≡ true
      → SamePid os s (run_option os arg value s).1
  unfolding run_option
  help-SamePid arg value s h = ground arith

  module _ (s : Process os) (text : Bytes) (pid : ℕ) (live : IsLive os s text pid) where
    daemon_process-SamePid :
        (arg : Bytes) (value : Value) → SamePid os s (daemon_process os arg value pid s).1
    unfolding daemon_process
    daemon_process-SamePid arg value =
        let (stopped, t) = check_saved os s in
        ground (arith, check_saved-SamePid s, command-SamePid arg value pid t)

    run_option-SamePid : (arg : Bytes) (value : Value) → SamePid os s (run_option os arg value s).1
    run_option-SamePid arg value = elim (Bool-cases (str_eq arg (option_key 5))) [
      | inl help ↦ help-SamePid arg value s help
      | inr other ↦
          rw (run_option-live os s text pid live arg value other) (daemon_process-SamePid arg value)
    ]

    -- While a daemon runs, every command line leaves the PID file as it is.
    pub main-SamePid : (argv : List Bytes) → SamePid os s (main os argv s).1
    unfolding main parse_options
    main-SamePid (program ∷ arg ∷ []) = run_option-SamePid arg none
    main-SamePid (program ∷ arg ∷ path ∷ []) = run_option-SamePid arg (some path)
    main-SamePid _ = refl
