-- ===== src/Cli/Parse/Stopped.antt =====
-- The command line while no daemon is running: there is no PID file, or it names no process.
use robotd.Common.{ℕ, ◌≡◌, Bytes, codes, false, pos, none, some, List, [], ◌∷◌, ◌++◌, arith, str_eq}
use robotd.Directories.{pid_file, config_load}
use robotd.Posix.{Os, IsPosix, opened, refused}
use robotd.Cli.State.{Process}
use robotd.Cli.Options.{option_key}
use robotd.Cli.Load.Saved.{option_load-IsSaved}
use robotd.Cli.Scan.{scan_u16, find_process}
use robotd.Cli.Load.{Exit, ret}
use robotd.Cli.Parse.{
  Value, run_daemon, no_daemon_process, drop_pid_file, read_pid, run_option, parse_options, main,
  decide,
}

module _ (os : Os) where
  -- A PID file whose number /proc does not list is removed, and every option but help goes on
  -- in the world without the file as no_daemon_process.
  pub run_option-stale :
      (s : Process os) (text : Bytes) (pid : ℕ) (names : List Bytes)
      → os.read s.world pid_file ≡ opened text
      → scan_u16 text ≡ some pid
      → os.proc s.world ≡ some names
      → find_process pid names ≡ false
      → (os.unlink s.world pid_file).0 ≡ none
      → (arg : Bytes) (value : Value) → str_eq arg (option_key 5) ≡ false
      → run_option os arg value s
        ≡ no_daemon_process os arg value (record s { world = (os.unlink s.world pid_file).1 })
  unfolding run_option read_pid drop_pid_file
  run_option-stale s text pid names file number opens gone removed arg value help = ground arith

  -- Without a PID file every option but help goes on as `no_daemon_process`.
  pub run_option-vacant :
      (s : Process os) (e : ℕ)
      → os.read s.world pid_file ≡ refused e
      → (arg : Bytes) (value : Value) → str_eq arg (option_key 5) ≡ false
      → run_option os arg value s ≡ no_daemon_process os arg value (record s { errno = e })
  unfolding run_option
  run_option-vacant s e file arg value help = ground arith

  no_daemon_process-IsSaved :
      IsPosix os
      → (arg : Bytes) (value : Value) (s : Process os)
      → (no_daemon_process os arg value s).0 ≡ ret (pos 0)
      → let t = (no_daemon_process os arg value s).1 in
        os.read t.world config_load ≡ opened (t.config_file ++ codes "\n")
  unfolding no_daemon_process
  no_daemon_process-IsSaved posix arg none s h = ground (arith, option_load-IsSaved os posix s)
  no_daemon_process-IsSaved posix arg (some path) s h =
      ground (arith, option_load-IsSaved os posix (record s { config_file = path }))

  run_option-IsSaved :
      IsPosix os
      → (s : Process os) (e : ℕ) → os.read s.world pid_file ≡ refused e
      → (arg : Bytes) (value : Value) → (run_option os arg value s).0 ≡ ret (pos 0)
      → let t = (run_option os arg value s).1 in
        os.read t.world config_load ≡ opened (t.config_file ++ codes "\n")
  unfolding run_option
  run_option-IsSaved posix s e file arg value h =
      ground (arith, no_daemon_process-IsSaved posix arg value (record s { errno = e }))

  decide_start :
      (e : Exit) (t : Process os) (path : Bytes)
      → decide os e t ≡ run_daemon path
      → (e ≡ ret (pos 0)) × (t.config_file ≡ path)
  unfolding decide
  decide_start e t path h = ground arith

  -- On a system that is IsPosix, when main starts the daemon and there was no readable PID
  -- file, CONFIG_LOAD holds the very path that the daemon is given, and a newline.
  pub main-IsSaved :
      IsPosix os
      → (s : Process os) (e : ℕ) → os.read s.world pid_file ≡ refused e
      → (argv : List Bytes) (file : Bytes) → (main os argv s).0 ≡ run_daemon file
      → os.read (main os argv s).1.world config_load ≡ opened (file ++ codes "\n")
  unfolding main parse_options
  main-IsSaved posix s e file (program ∷ arg ∷ []) path h =
      let (starts, same) = decide_start _ _ path h in
      rw same at (run_option-IsSaved posix s e file arg none starts)
  main-IsSaved posix s e file (program ∷ arg ∷ value ∷ []) path h =
      let (starts, same) = decide_start _ _ path h in
      rw same at (run_option-IsSaved posix s e file arg (some value) starts)
  main-IsSaved posix s e file _ path h = ground arith

  -- With a PID file that holds no number and errno 0, main starts the daemon for every single
  -- option but help, stop and status included.
  pub main-bad_pid_file :
      (s : Process os) (text : Bytes)
      → os.read s.world pid_file ≡ opened text
      → scan_u16 text ≡ none
      → s.errno ≡ 0
      → (program arg : Bytes) → str_eq arg (option_key 5) ≡ false
      → (main os (program ∷ arg ∷ []) s).0 ≡ run_daemon s.config_file
  unfolding main parse_options run_option read_pid
  main-bad_pid_file s text file number clean program arg help = ground arith
