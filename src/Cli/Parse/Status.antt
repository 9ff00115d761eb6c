-- ===== src/Cli/Parse/Status.antt =====
-- The numbers that `parse_options` returns, and what `main` makes of them.
use robotd.Common.{
  ℕ, ◌≡◌, refl, ◌≢◌, Bytes, Bool, false, Option, none, some, List, [], ◌∷◌, arith, inl, inr,
}
use robotd.Directories.{pid_file}
use robotd.Posix.{Os, opened-cases}
use robotd.Cli.State.{Process, unlink}
use robotd.Cli.Load.Saved.{is_failure, option_load-nonneg}
use robotd.Cli.Scan.{scan_u16}
use robotd.Cli.Load.{Exit}
use robotd.Cli.Parse.{
  Value, exits, no_daemon_process, check_saved, command, daemon_process, drop_pid_file, read_pid,
  run_option, parse_options, main,
}

abbrev is_failure? : Option Exit → Bool
is_failure? none = false
is_failure? (some e) = is_failure e

module _ (os : Os) where
  no_daemon_process-nonneg :
      (arg : Bytes) (value : Value) (s : Process os)
      → is_failure (no_daemon_process os arg value s).0 ≡ false
  unfolding no_daemon_process
  no_daemon_process-nonneg arg none s = ground (arith, option_load-nonneg os s)
  no_daemon_process-nonneg arg (some path) s =
      ground (arith, option_load-nonneg os (record s { config_file = path }))

  check_saved-nonneg : (s : Process os) → is_failure? (check_saved os s).0 ≡ false
  unfolding check_saved
  check_saved-nonneg s = ground arith

  command-nonneg :
      (arg : Bytes) (value : Value) (pid : ℕ) (s : Process os)
      → is_failure (command os arg value pid s).0 ≡ false
  unfolding command
  command-nonneg arg none pid s = ground arith
  command-nonneg arg (some path) pid s =
      ground (arith, option_load-nonneg os (record s { config_file = path }))

  daemon_process-nonneg :
      (arg : Bytes) (value : Value) (pid : ℕ) (s : Process os)
      → is_failure (daemon_process os arg value pid s).0 ≡ false
  unfolding daemon_process
  daemon_process-nonneg arg value pid s =
      ground (arith, check_saved-nonneg s, command-nonneg arg value pid (check_saved os s).1)

  drop_pid_file-nonneg :
      (arg : Bytes) (value : Value) (s : Process os)
      → is_failure (drop_pid_file os arg value s).0 ≡ false
  unfolding drop_pid_file
  drop_pid_file-nonneg arg value s =
      ground (arith, no_daemon_process-nonneg arg value (unlink os pid_file s).1)

  read_pid-nonneg :
      (arg : Bytes) (value : Value) (o : Option ℕ) (s : Process os)
      → is_failure (read_pid os arg value o s).0 ≡ false
  unfolding read_pid
  read_pid-nonneg arg value none s = ground arith
  read_pid-nonneg arg value (some pid) s =
      ground (arith, daemon_process-nonneg arg value pid s, drop_pid_file-nonneg arg value s)

  run_option-nonneg :
      (arg : Bytes) (value : Value) (s : Process os)
      → is_failure (run_option os arg value s).0 ≡ false
  unfolding run_option
  run_option-nonneg arg value s = elim (opened-cases (os.read s.world pid_file)) [
    | inl (text, e) ↦ ground (arith, read_pid-nonneg arg value (scan_u16 text) s)
    | inr (n, e) ↦ ground (arith, no_daemon_process-nonneg arg value (record s { errno = n }))
  ]

  parse_options-nonneg :
      (argv : List Bytes) (s : Process os) → is_failure (parse_options os argv s).0 ≡ false
  unfolding parse_options
  parse_options-nonneg (program ∷ arg ∷ []) s = run_option-nonneg arg none s
  parse_options-nonneg (program ∷ arg ∷ path ∷ []) s = run_option-nonneg arg (some path) s
  parse_options-nonneg _ s = refl

  -- main never exits with EXIT_FAILURE on account of the command line: what parse_options
  -- returns is never negative.
  pub main-ne_failure : (argv : List Bytes) (s : Process os) → (main os argv s).0 ≢ exits 1
  unfolding main
  main-ne_failure argv s = ground (arith, parse_options-nonneg argv s)
