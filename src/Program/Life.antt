-- ===== src/Program/Life.antt =====
-- The life of a daemon, for any class that keeps the laws of robot::daemon.
use robotd.Common.{ℕ, ◌≡◌, sym, ap, ◌∙◌, ◌++◌, Bytes, none, List, [], ◌∷◌, arith}
use robotd.Directories.{run_dir, pid_file, config_load}
use robotd.Posix.{Os, refused, IsPosix}
use robotd.Loader.State.{Loader}
use robotd.Cli.State.{Process}
use robotd.Cli.Parse.{run_daemon, main}
use robotd.Cli.Parse.Stopped.{main-IsSaved}
use robotd.Daemon.Monitor.{running, ended, SetupCall, first_failure, setup_calls}
use robotd.Daemon.Monitor as Monitor
use robotd.Daemon.Start.{made}
use robotd.Daemon.Reload.{IsOneLine}
use robotd.Daemon.Class.{Turn, Daemon, DaemonClass}
use robotd.Daemon.Class.Laws.{IsTerm, IsDaemonClass}
use robotd.Program.{Day, still_running, status, finish, serve, program}

-- The rounds of a day and one more.
abbrev pub and_then : {os : Os} → Day os → Turn os → Day os
and_then day last = record day { turns = day.turns ++ last ∷ [] }

module _ {os : Os} {S : Type 0} (d : DaemonClass os S) (laws : IsDaemonClass d) where
  -- On a system that is IsPosix and a class of daemons that keeps the laws of robot::daemon:
  -- when the command line starts the daemon with a path without a line break, and there was no
  -- readable PID file, reload_config loads that very path whatever the state of the loader, as
  -- long as CONFIG_LOAD is as main left it.
  pub program-reload :
      (posix : IsPosix os) (argv : List Bytes) (s : Process os) (e : ℕ) (file : Bytes)
      (w : os.World) (l : Loader S)
      → os.read s.world pid_file ≡ refused e
      → (main os argv s).0 ≡ run_daemon file
      → IsOneLine file
      → os.read w config_load ≡ os.read (main os argv s).1.world config_load
      → d.reload_config w l ≡ d.load file l
  program-reload posix argv s e file w l vacant starts one same =
      laws.reloaded w file (same ∙ main-IsSaved os posix s e vacant argv file starts) one l

  pub serve-made :
      (file : Bytes) (day : Day os) (w : os.World) (l : Loader S)
      → (d.daemon file run_dir day.answers w l).0 ≡ made
      → let (end, p) =
          d.monitor_proc day.setup day.turns (d.daemon file run_dir day.answers w l).2 in
        serve d file day w l ≡ finish d end p day.end_world
  unfolding serve
  serve-made file day w l h = ground arith

  pub program-serve :
      (argv : List Bytes) (day : Day os) (s : Process os) (l : Loader S) (file : Bytes)
      → (main os argv s).0 ≡ run_daemon file
      → program d argv day s l ≡ serve d file day (main os argv s).1.world l
  unfolding program
  program-serve argv day s l file h = ground arith

  finish-running :
      (o : Monitor.Outcome) (p : Daemon S) (w : os.World)
      → (finish d o p w).0 ≡ still_running
      → o ≡ running
  unfolding finish
  finish-running o p w h = ground arith

  pub serve-running :
      (file : Bytes) (day : Day os) (w : os.World) (l : Loader S)
      → (serve d file day w l).0 ≡ still_running
      → ((d.daemon file run_dir day.answers w l).0 ≡ made)
        × ((d.monitor_proc day.setup day.turns (d.daemon file run_dir day.answers w l).2).0
            ≡ running)
  unfolding serve
  serve-running file day w l h =
      let (m, v, o) = d.daemon file run_dir day.answers w l in
      let (end, p) = d.monitor_proc day.setup day.turns o in
      ground (arith, finish-running end p day.end_world)

  finish-ended :
      (o : Monitor.Outcome) (p : Daemon S) (w : os.World)
      → o ≡ ended 0
      → finish d o p w ≡ (status 0, d.destroy p w)
  unfolding finish
  finish-ended o p w h = rw h

  serve-ended :
      (file : Bytes) (day : Day os) (w : os.World) (l : Loader S) (last : Turn os)
      → first_failure day.setup setup_calls ≡ none
      → (serve d file day w l).0 ≡ still_running
      → IsTerm last
      → (p : Daemon S) × (p.pid_file ≡ pid_file)
        × (serve d file (and_then day last) w l ≡ (status 0, d.destroy p day.end_world))
  serve-ended file day w l last none_fails goes_on h =
      let (starts, watches) = serve-running file day w l goes_on in
      let o = (d.daemon file run_dir day.answers w l).2 in
      let turns = day.turns ++ last ∷ [] in
      let (end, p) = d.monitor_proc day.setup turns o in
      (
        p,
        laws.kept day.setup turns o ∙ laws.named file run_dir day.answers w l,
        serve-made file (and_then day last) w l starts
            ∙ finish-ended end p day.end_world (
                laws.terminated file run_dir day.answers w l day.setup day.turns last none_fails
                  watches h),
      )

  pub destroy_read :
      (p : Daemon S) (w : os.World) (path : Bytes)
      → p.pid_file ≡ path
      → (os.unlink w path).0 ≡ none
      → (e : ℕ) × (os.read (d.destroy p w) path ≡ refused e)
  destroy_read p w path same h =
      let (e, r) = laws.removed p w (ap (λ q. (os.unlink w q).0) same ∙ h) in
      (e, ap (λ q. os.read (d.destroy p w) q) (sym same) ∙ r)

  -- On a class of daemons that keeps the laws of robot::daemon: if the command line starts the
  -- daemon, the calls that set up the signals succeed, and the program still runs after the
  -- rounds of a day, then one more round in which a child can be started or is there and
  -- SIGTERM comes ends it with exit status 0, and, if the PID file can be removed, leaves no
  -- PID file that can be opened.
  pub program-terminated :
      (argv : List Bytes) (day : Day os) (s : Process os) (l : Loader S) (file : Bytes)
      (last : Turn os)
      → (main os argv s).0 ≡ run_daemon file
      → first_failure day.setup setup_calls ≡ none
      → (program d argv day s l).0 ≡ still_running
      → IsTerm last
      → (os.unlink day.end_world pid_file).0 ≡ none
      → let (fate, w) = program d argv (and_then day last) s l in
        (fate ≡ status 0) × (e : ℕ) × (os.read w pid_file ≡ refused e)
  program-terminated argv day s l file last starts none_fails goes_on h removed =
      let w = (main os argv s).1.world in
      let still = ap (λ r. r.0) (sym (program-serve argv day s l file starts)) ∙ goes_on in
      let (p, same, ends) = serve-ended file day w l last none_fails still h in
      let (e, gone) = destroy_read p day.end_world pid_file same removed in
      let whole = program-serve argv (and_then day last) s l file starts ∙ ends in
      (ap (λ r. r.0) whole, e, ap (λ r. os.read r.1 pid_file) whole ∙ gone)
