-- ===== src/Program/System/Renew.antt =====
-- `restart` when the running daemon ends before the new one is made.
use robotd.Common.{ℕ, ◌≡◌, ap, ◌∙◌, Bytes, none, [], ◌∷◌, pos}
use robotd.Definitions.{sigterm}
use robotd.Directories.{run_dir, pid_file}
use robotd.Posix.{Os, IsPosix, opened}
use robotd.Posix.Files.{IsFiles}
use robotd.Loader.Settings.{Env}
use robotd.Loader.State.{Loader}
use robotd.Loader.Config.{returned}
use robotd.Loader.Class.{first_state}
use robotd.TcpServer.Config.{Settings, defaults}
use robotd.Cli.Options.{option_key}
use robotd.Cli.Parse.Running.{HasConfig}
use robotd.Daemon.Start.{Made, made, pid_line}
use robotd.Daemon.Start.Fate.{IsErrno}
use robotd.Daemon.Class.{Daemon, DaemonClass}
use robotd.Program.System.{System, Call, process_of, Listed, invoke_after, Reachable}
use robotd.Program.Main.{robot_daemon}
use robotd.Program.System.Daemons.{robot_laws, Reachable-IsSingle}
use robotd.Program.System.Restart.{invoke_after-made}

module _ (os : Os) (env : Env) (unset unset_signo : ℕ) (w : os.World) (p : ℕ) (o : Daemon Settings)
    (call : Call) (c : ℕ) (path : Bytes) where
  abbrev d : DaemonClass os Settings
  d = robot_daemon os env unset unset_signo

  abbrev sys : System os Settings
  sys = record { world = w; daemons = (p, o) ∷ [] }

  -- The constructor of the new daemon, in the world that the old one left.
  abbrev pub renewed : Made × os.World × Daemon Settings
  renewed =
      d.daemon (c ∷ path) run_dir call.answers (d.destroy o (os.kill w p sigterm).1)
        (first_state defaults)

  -- On a system that is IsPosix and IsFiles, where no failing call leaves 0 in errno, in a
  -- state that is Reachable with the daemon p, which /proc lists, and a path in CONFIG_LOAD
  -- that fits the buffer: when restart could send SIGTERM, p ends before the constructor of the
  -- new daemon runs, and that succeeds, then the new daemon alone runs, the PID file has its
  -- number, and it has loaded the path in CONFIG_LOAD without an error.
  pub invoke_after-daemons :
      (program saved : Bytes)
      → IsPosix os
      → IsFiles os
      → Reachable d (first_state defaults) sys
      → Listed (os.proc w) sys.daemons
      → HasConfig os (process_of call w) saved c path
      → call.argv ≡ program ∷ option_key 2 ∷ []
      → (os.kill w p sigterm).0 ≡ none
      → IsErrno call.answers
      → renewed.0 ≡ made
      → let after = invoke_after d (first_state defaults) p call sys in
        (after.daemons ≡ (call.answers.getpid, renewed.2) ∷ [])
        × (os.read after.world pid_file ≡ opened (pid_line call.answers.getpid))
        × ((d.load (c ∷ path) (first_state defaults)).0 ≡ returned (pos 0))
  invoke_after-daemons program saved posix files r listed config restarts sent errno renews =
      let l : Loader Settings = first_state defaults in
      let laws = robot_laws os env unset unset_signo posix in
      let single = Reachable-IsSingle os env unset unset_signo posix files sys r in
      let whole =
        invoke_after-made d l posix laws w p o single listed call program saved c path config
          restarts sent renews in
      let (loads, stored) =
        laws.constructed (c ∷ path) run_dir call.answers (d.destroy o (os.kill w p sigterm).1) l
          errno renews in
      (ap (λ x. x.daemons) whole, ap (λ x. os.read x.world pid_file) whole ∙ stored, loads)
