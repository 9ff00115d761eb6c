-- ===== src/Cli/Parse/Word.antt =====
-- Every command line leaves a word in `CONFIG_LOAD` if there was one, or no such file.
use robotd.Common.{
  ℕ, ◌≡◌, ◌≢◌, Bytes, Bool, true, false, Option, none, some, List, [], ◌∷◌, arith, inl, inr,
}
use robotd.Definitions.{sighup, sigterm}
use robotd.Directories.{pid_file, config_load}
use robotd.Posix.{Os, IsPosix, opened, opened-cases}
use robotd.Posix.Files.{IsFiles, pid_file-ne}
use robotd.Cli.State.{Process, unlink}
use robotd.Cli.Scan.{scan_word, scan_u16}
use robotd.Cli.Load.{option_load, make_run_dir}
use robotd.Cli.Load.Word.{
  HasWord, Saves, same-Saves, write-Saves, scan_word-full, make_run_dir-Saves, option_load-Saves,
}
use robotd.Cli.Parse.{
  Value, restore, recreate, check_saved, command, no_daemon_process, drop_pid_file, read_pid,
  daemon_process, run_option, parse_options, main, fresh_line,
}

module _ (os : Os) (posix : IsPosix os) (files : IsFiles os) where
  kill-Saves :
      (pid sig : ℕ) (s : Process os) → Saves os s.world → Saves os (os.kill s.world pid sig).1
  kill-Saves pid sig s h =
      same-Saves os s.world (os.kill s.world pid sig).1
        (files.kill_read s.world pid sig config_load) h

  -- The file that was read has a word, so nothing is written.
  restore-Saves :
      (text : Bytes) (s : Process os)
      → scan_word text ≢ []
      → Saves os s.world
      → Saves os (restore os text s).1.world
  unfolding restore
  restore-Saves text s full h = ground arith

  recreate-Saves :
      (ready : Bool) (s : Process os) → Saves os s.world → Saves os (recreate os ready s).1.world
  unfolding recreate
  recreate-Saves false s h = h
  recreate-Saves true s h =
      ground (arith, write-Saves os posix files s.world (fresh_line os) (scan_word-full _) h)

  read-HasWord :
      (s : Process os) (text : Bytes)
      → os.read s.world config_load ≡ opened text
      → Saves os s.world
      → HasWord (opened text)
  read-HasWord s text e h = rw e at h

  check_saved-Saves : (s : Process os) → Saves os s.world → Saves os (check_saved os s).1.world
  unfolding check_saved
  check_saved-Saves s h = elim (opened-cases (os.read s.world config_load)) [
    | inl (text, e) ↦ ground (arith, e, restore-Saves text s (read-HasWord s text e h) h)
    | inr (n, e) ↦
        let failed = record s { errno = n } in
        let (ready, t) = make_run_dir os failed in
        let there = make_run_dir-Saves os posix files failed h in
        ground (arith, e, there, recreate-Saves ready t there)
  ]

  command-Saves :
      (arg : Bytes) (value : Value) (pid : ℕ) (s : Process os)
      → Saves os s.world
      → Saves os (command os arg value pid s).1.world
  unfolding command
  command-Saves arg none pid s h =
      ground (arith, kill-Saves pid sighup s h, kill-Saves pid sigterm s h)
  command-Saves arg (some path) pid s h =
      let loaded = option_load-Saves os posix files (record s { config_file = path }) h in
      let t = (option_load os (record s { config_file = path })).1 in
      ground (
        arith,
        kill-Saves pid sighup s h,
        kill-Saves pid sigterm s h,
        loaded,
        kill-Saves pid sighup t loaded,
      )

  no_daemon_process-Saves :
      (arg : Bytes) (value : Value) (s : Process os)
      → Saves os s.world
      → Saves os (no_daemon_process os arg value s).1.world
  unfolding no_daemon_process
  no_daemon_process-Saves arg none s h = ground (arith, option_load-Saves os posix files s h)
  no_daemon_process-Saves arg (some path) s h =
      ground (arith, option_load-Saves os posix files (record s { config_file = path }) h)

  daemon_process-Saves :
      (arg : Bytes) (value : Value) (pid : ℕ) (s : Process os)
      → Saves os s.world
      → Saves os (daemon_process os arg value pid s).1.world
  unfolding daemon_process
  daemon_process-Saves arg value pid s h =
      let there = check_saved-Saves s h in
      ground (arith, h, there, command-Saves arg value pid (check_saved os s).1 there)

  unlink-Saves : (s : Process os) → Saves os s.world → Saves os (unlink os pid_file s).1.world
  unlink-Saves s h =
      let w = (os.unlink s.world pid_file).1 in
      let there =
        same-Saves os s.world w (files.unlink_other s.world pid_file config_load pid_file-ne) h in
      ground (arith, there)

  drop_pid_file-Saves :
      (arg : Bytes) (value : Value) (s : Process os)
      → Saves os s.world
      → Saves os (drop_pid_file os arg value s).1.world
  unfolding drop_pid_file
  drop_pid_file-Saves arg value s h =
      let there = unlink-Saves s h in
      ground (arith, there, no_daemon_process-Saves arg value (unlink os pid_file s).1 there)

  read_pid-Saves :
      (arg : Bytes) (value : Value) (number : Option ℕ) (s : Process os)
      → Saves os s.world
      → Saves os (read_pid os arg value number s).1.world
  unfolding read_pid
  read_pid-Saves arg value none s h = h
  read_pid-Saves arg value (some pid) s h =
      ground (arith, daemon_process-Saves arg value pid s h, drop_pid_file-Saves arg value s h)

  run_option-Saves :
      (arg : Bytes) (value : Value) (s : Process os)
      → Saves os s.world
      → Saves os (run_option os arg value s).1.world
  unfolding run_option
  run_option-Saves arg value s h = elim (opened-cases (os.read s.world pid_file)) [
    | inl (text, e) ↦ ground (arith, e, h, read_pid-Saves arg value (scan_u16 text) s h)
    | inr (n, e) ↦
        ground (arith, e, h, no_daemon_process-Saves arg value (record s { errno = n }) h)
  ]

  -- Every command line keeps a word in CONFIG_LOAD.
  pub main-Saves :
      (argv : List Bytes) (s : Process os) → Saves os s.world → Saves os (main os argv s).1.world
  unfolding main parse_options
  main-Saves (program ∷ arg ∷ []) s h = run_option-Saves arg none s h
  main-Saves (program ∷ arg ∷ path ∷ []) s h = run_option-Saves arg (some path) s h
  main-Saves _ s h = h
