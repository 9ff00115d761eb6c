-- ===== src/Cli/Parse/Signals.antt =====
-- The commands to a running daemon as a whole: the signal, and what `main` does then.
use robotd.Common.{
  is_nonzero, if◌then◌else◌, ℕ, ◌≡◌, refl, Bytes, Option, none, some, List, [], ◌∷◌, arith, str_eq,
}
use robotd.Definitions.{sighup, sigterm}
use robotd.Posix.{Os, IsPosix}
use robotd.Cli.State.{Process}
use robotd.Cli.Options.{option_key}
use robotd.Cli.Load.{Exit, ret, fault, option_load}
use robotd.Cli.Load.Saved.{option_load-nonneg}
use robotd.Cli.Parse.{
  Outcome, exits, crashes, run_daemon, command, daemon_process, run_option, parse_options, main,
}
use robotd.Cli.Parse.Running.{IsLive, HasConfig, run_option-live, run_option-command}

-- `restart` goes on as the daemon itself, if the signal could be sent.
abbrev pub restarted : Option ℕ → Bytes → Outcome
restarted none path = run_daemon path
restarted (some e) path = exits 0

-- `load` ends by `exit(0)` whatever `option_load` returned, if it did.
abbrev pub after_load : Exit → Outcome
after_load fault = crashes
after_load (ret r) = exits 0

-- What `main` decides on `argv`, and the world that it leaves.
abbrev pub Does : (os : Os) → List Bytes → Process os → Outcome → os.World → Type 0
Does os argv s o w = let (p, t) = main os argv s in (p ≡ o) × (t.world ≡ w)

-- The world after `load`: the signal is sent if `option_load` returned 0.
abbrev pub reloaded : (os : Os) → ℕ → Exit × Process os → os.World
reloaded os pid (fault, t) = t.world
reloaded os pid (ret r, t) = if is_nonzero r then t.world else (os.kill t.world pid sighup).1

module _ (os : Os) (posix : IsPosix os) (s : Process os) (text : Bytes) (pid : ℕ)
    (live : IsLive os s text pid) (saved : Bytes) (c : ℕ) (path : Bytes)
    (config : HasConfig os s saved c path) (program : Bytes) where
  load-Does :
      (file : Bytes)
      → Does os
          (program ∷ option_key 0 ∷ file ∷ [])
          s
          (after_load (option_load os (record s { config_file = file })).0)
          (reloaded os pid (option_load os (record s { config_file = file })))
  unfolding main parse_options command str_eq
  load-Does file =
      rw
        (run_option-command os s text pid live saved c path config (option_key 0) (some file) refl
          refl)
        (ground (
          arith,
          option_load-nonneg os (record s { config_file = file }),
          posix.kill_errno (option_load os (record s { config_file = file })).1.world pid sighup,
        ))

  reload-Does : Does os (program ∷ option_key 1 ∷ []) s (exits 0) (os.kill s.world pid sighup).1
  unfolding main parse_options command str_eq
  reload-Does =
      rw (run_option-command os s text pid live saved c path config (option_key 1) none refl refl)
        (ground (arith, posix.kill_errno s.world pid sighup))

  pub restart-Does :
      Does os
        (program ∷ option_key 2 ∷ [])
        s
        (restarted (os.kill s.world pid sigterm).0 (c ∷ path))
        (os.kill s.world pid sigterm).1
  unfolding main parse_options command str_eq
  restart-Does =
      rw (run_option-command os s text pid live saved c path config (option_key 2) none refl refl)
        (ground (arith, posix.kill_errno s.world pid sigterm))

  pub stop-Does : Does os (program ∷ option_key 3 ∷ []) s (exits 0) (os.kill s.world pid sigterm).1
  unfolding main parse_options command str_eq
  stop-Does =
      rw (run_option-command os s text pid live saved c path config (option_key 3) none refl refl)
        (ground (arith, posix.kill_errno s.world pid sigterm))

  status-Does : Does os (program ∷ option_key 4 ∷ []) s (exits 0) s.world
  unfolding main parse_options daemon_process str_eq
  status-Does = rw (run_option-live os s text pid live (option_key 4) none refl) (ground arith)

  help-Does : Does os (program ∷ option_key 5 ∷ []) s (exits 0) s.world
  unfolding main parse_options run_option str_eq
  help-Does = (refl, refl)

  -- On a system that is IsPosix, with the daemon running, listed in a /proc that can be opened,
  -- and a path in CONFIG_LOAD that fits the buffer: reload sends it SIGHUP and stop SIGTERM,
  -- load with a file runs option_load and sends SIGHUP if that returned 0, status and help
  -- change nothing, and each of these makes main exit with 0, whether the signal could be sent
  -- or not, except that load crashes if option_load does; restart sends SIGTERM, and main goes
  -- on as the daemon for the path in CONFIG_LOAD if that succeeded and exits with 0 otherwise;
  -- no other change is made to the world.
  pub main-Does :
      (file : Bytes)
      → Does os
          (program ∷ option_key 0 ∷ file ∷ [])
          s
          (after_load (option_load os (record s { config_file = file })).0)
          (reloaded os pid (option_load os (record s { config_file = file })))
        × Does os (program ∷ option_key 1 ∷ []) s (exits 0) (os.kill s.world pid sighup).1
        × Does os
            (program ∷ option_key 2 ∷ [])
            s
            (restarted (os.kill s.world pid sigterm).0 (c ∷ path))
            (os.kill s.world pid sigterm).1
        × Does os (program ∷ option_key 3 ∷ []) s (exits 0) (os.kill s.world pid sigterm).1
        × Does os (program ∷ option_key 4 ∷ []) s (exits 0) s.world
        × Does os (program ∷ option_key 5 ∷ []) s (exits 0) s.world
  main-Does file = (load-Does file, reload-Does, restart-Does, stop-Does, status-Does, help-Does)
