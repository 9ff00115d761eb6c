-- ===== src/Program/Orphan.antt =====
-- A daemon that cannot start its child: the PID file that it leaves.
use robotd.Common.{ℕ, ◌≡◌, refl, sym, ap, ◌∙◌, ◌++◌, Bytes, true, none, List, [], ◌∷◌}
use robotd.Directories.{run_dir}
use robotd.Posix.{Os, IsPosix}
use robotd.Loader.Settings.{Env}
use robotd.Loader.State.{Loader}
use robotd.Loader.Class.{first_state}
use robotd.TcpServer.Config.{Settings, defaults}
use robotd.Cli.State.{Process}
use robotd.Cli.Parse.{run_daemon, main}
use robotd.Daemon.Monitor.{fork_failed, exited, first_failure, setup_calls}
use robotd.Daemon.Monitor as Monitor
use robotd.Daemon.Class.{Turn, Daemon, DaemonClass}
use robotd.Daemon.Class.Laws.{IsDaemonClass}
use robotd.Program.{Day, still_running, status, finish, serve}
use robotd.Program.Life.{and_then, serve-made, serve-running, program-serve}
use robotd.Program.Main.{robot_daemon, server_main, laws}

module _ {os : Os} {S : Type 0} (d : DaemonClass os S) where
  finish-exited :
      (o : Monitor.Outcome) (p : Daemon S) (w : os.World)
      → o ≡ exited 1
      → finish d o p w ≡ (status 1, w)
  unfolding finish
  finish-exited o p w h = rw h refl

  serve-unforked :
      (laws : IsDaemonClass d) (file : Bytes) (day : Day os) (w : os.World) (l : Loader S)
      (last : Turn os)
      → first_failure day.setup setup_calls ≡ none
      → (serve d file day w l).0 ≡ still_running
      → (d.monitor_proc day.setup day.turns
          (d.daemon file run_dir day.answers w l).2).1.monitor.need_start
        ≡ true
      → last.fork ≡ fork_failed
      → serve d file (and_then day last) w l ≡ (status 1, day.end_world)
  serve-unforked laws file day w l last none_fails goes_on need failed =
      let (starts, watches) = serve-running d laws file day w l goes_on in
      let o = (d.daemon file run_dir day.answers w l).2 in
      let (end, p) = d.monitor_proc day.setup (day.turns ++ last ∷ []) o in
      serve-made d laws file (and_then day last) w l starts
      ∙ finish-exited end p day.end_world
          (laws.unforked day.setup day.turns last o none_fails watches need failed)

module _ (os : Os) (env : Env) (unset unset_signo : ℕ) (argv : List Bytes) (day : Day os)
    (s : Process os) (file : Bytes) where
  -- The daemon after the rounds of the day.
  abbrev pub at_the_end : Daemon Settings
  at_the_end =
      let d = robot_daemon os env unset unset_signo in
      (d.monitor_proc day.setup day.turns
        (d.daemon file run_dir day.answers (main os argv s).1.world (first_state defaults)).2).1

  -- On a system that is IsPosix: if the command line starts the daemon, the calls that set up
  -- the signals succeed, and the program still runs after the rounds of a day and needs a
  -- child, then one more round in which fork fails ends it with exit status 1, and the world is
  -- left as it is then, the PID file not removed.
  pub server_main-unforked :
      (last : Turn os)
      → IsPosix os
      → (main os argv s).0 ≡ run_daemon file
      → first_failure day.setup setup_calls ≡ none
      → (server_main os env unset unset_signo argv day s).0 ≡ still_running
      → at_the_end.monitor.need_start ≡ true
      → last.fork ≡ fork_failed
      → server_main os env unset unset_signo argv (and_then day last) s ≡ (status 1, day.end_world)
  unfolding server_main
  server_main-unforked last posix starts none_fails goes_on need failed =
      let d = robot_daemon os env unset unset_signo in
      let keeps = laws os env unset unset_signo posix in
      let w = (main os argv s).1.world in
      let l : Loader Settings = first_state defaults in
      let still = ap (λ r. r.0) (sym (program-serve d keeps argv day s l file starts)) ∙ goes_on in
      program-serve d keeps argv (and_then day last) s l file starts
      ∙ serve-unforked d keeps file day w l last none_fails still need failed
