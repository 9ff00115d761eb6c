-- ===== src/Program/Main.antt =====
-- main of server_main.cpp with the class that it names: robot::daemon with slaves::tcp_server alone.
use robotd.Cli.Scan.{scan_word}
use robotd.Cli.Options.{option_key}
use robotd.Cli.Parse.Stopped.{main-IsSaved}
use robotd.Cli.Parse.Exclusive.{main-exclusive}
use robotd.Common.Decimal.{to_string}
use robotd.Daemon.Start.{made, pid_line}
use robotd.Daemon.Start.Found.{found}
use robotd.Common.{
  some, ◌<◌, ◌^◌, ◌≢◌, ◌++◌, ◌∷◌, false, length, str_eq, ℕ, ◌≡◌, ◌∙◌, ap, sym, Bytes, codes, pos,
  none, List, [],
}
use robotd.Directories.{run_dir, pid_file, config_load}
use robotd.Posix.{Os, refused, IsPosix}
use robotd.Loader.Settings.{Env}
use robotd.Loader.State.{Loader}
use robotd.Loader.Config.{returned, daemon_load_config}
use robotd.Loader.Class.{first_state}
use robotd.TcpServer.Config.{Settings, defaults, load_config}
use robotd.Cli.State.{Process}
use robotd.Cli.Parse.{run_daemon, main}
use robotd.Daemon.Monitor.{first_failure, setup_calls}
use robotd.Daemon.Start.Fate.{IsErrno}
use robotd.Daemon.Reload.{IsOneLine, reload_config}
use robotd.Daemon.Class.{Turn, DaemonClass, daemon_class}
use robotd.Daemon.Class.Laws.{IsTerm, IsDaemonClass, class-IsDaemonClass}
use robotd.Program.{Day, Fate, still_running, status, program}
use robotd.Program.Life.{and_then, program-serve, serve-running, program-reload, program-terminated}

module _ (os : Os) (env : Env) (unset unset_signo : ℕ) where
  -- `robot::daemon<slaves::tcp_server>`
  abbrev pub robot_daemon : DaemonClass os Settings
  robot_daemon = daemon_class os env (codes "Daemon") load_config [] unset unset_signo

  -- The static members have their first values when `main` is called.
  unfoldable pub server_main : List Bytes → Day os → Process os → Fate × os.World
  server_main argv day s = program robot_daemon argv day s (first_state defaults)

  pub laws : IsPosix os → IsDaemonClass robot_daemon
  laws = class-IsDaemonClass os env (codes "Daemon") load_config [] unset unset_signo

  -- On a system that is IsPosix: if the command line starts the daemon, the calls that set up
  -- the signals succeed, and the program still runs after the rounds of a day, then one more
  -- round in which fork, if it is called, succeeds and SIGTERM comes ends it with exit status
  -- 0, and, if the PID file can be removed, leaves no PID file that can be opened.
  pub server_main-terminated :
      (argv : List Bytes) (day : Day os) (s : Process os) (file : Bytes) (last : Turn os)
      → IsPosix os
      → (main os argv s).0 ≡ run_daemon file
      → first_failure day.setup setup_calls ≡ none
      → (server_main argv day s).0 ≡ still_running
      → IsTerm last
      → (os.unlink day.end_world pid_file).0 ≡ none
      → let (fate, w) = server_main argv (and_then day last) s in
        (fate ≡ status 0) × (e : ℕ) × (os.read w pid_file ≡ refused e)
  unfolding server_main
  server_main-terminated argv day s file last posix starts none_fails goes_on h removed =
      program-terminated robot_daemon (laws posix) argv day s (first_state defaults) file last
        starts none_fails goes_on h removed

  pub server_main-started :
      (argv : List Bytes) (day : Day os) (s : Process os) (file : Bytes)
      → IsPosix os
      → (main os argv s).0 ≡ run_daemon file
      → (server_main argv day s).0 ≡ still_running
      → (robot_daemon.daemon file run_dir day.answers
          (main os argv s).1.world
          (first_state defaults)).0
        ≡ made
  unfolding server_main
  server_main-started argv day s file posix starts goes_on =
      let w = (main os argv s).1.world in
      let l : Loader Settings = first_state defaults in
      let still =
        ap (λ r. r.0) (sym (program-serve robot_daemon (laws posix) argv day s l file starts))
        ∙ goes_on in
      (serve-running robot_daemon (laws posix) file day w l still).0

  server_main-made :
      (argv : List Bytes) (day : Day os) (s : Process os) (file : Bytes)
      → IsPosix os
      → IsErrno day.answers
      → (main os argv s).0 ≡ run_daemon file
      → (server_main argv day s).0 ≡ still_running
      → (robot_daemon.load file (first_state defaults)).0 ≡ returned (pos 0)
  server_main-made argv day s file posix errno starts goes_on =
      ((laws posix).constructed file run_dir day.answers (main os argv s).1.world
        (first_state defaults) errno (server_main-started argv day s file posix starts goes_on)).0

  -- On a system that is IsPosix, where no failing call leaves 0 in errno: when the command line
  -- starts the daemon with a path without a line break, there was no readable PID file, and the
  -- program still runs after the rounds of a day, then the load of that path from the first
  -- values of the static members returned 0, and a reload loads that very path, from whatever
  -- state, as long as CONFIG_LOAD is as the command line left it.
  pub server_main-reload :
      (argv : List Bytes) (day : Day os) (s : Process os) (e : ℕ) (file : Bytes) (w : os.World)
      (l : Loader Settings)
      → IsPosix os
      → IsErrno day.answers
      → os.read s.world pid_file ≡ refused e
      → (main os argv s).0 ≡ run_daemon file
      → (server_main argv day s).0 ≡ still_running
      → IsOneLine file
      → os.read w config_load ≡ os.read (main os argv s).1.world config_load
      → let load = daemon_load_config env (codes "Daemon") load_config [] file in
        ((load (first_state defaults)).0 ≡ returned (pos 0))
        × (reload_config os env (codes "Daemon") load_config [] w l ≡ load l)
  unfolding daemon_class
  server_main-reload argv day s e file w l posix errno vacant starts goes_on one same = (
    server_main-made argv day s file posix errno starts goes_on,
    program-reload robot_daemon (laws posix) posix argv s e file w l vacant starts one same,
  )

  -- On a system that is IsPosix, where no failing call leaves 0 in errno: once the command
  -- line, without a readable PID file, has started a daemon with a number below 2^16 and the
  -- path of a file, of which a first word is read back that fits the buffer, and the program
  -- still runs after the rounds of a day, then no command line whose option is not restart
  -- makes main start a second daemon, whatever system calls fail, as long as CONFIG_LOAD is as
  -- the command line and the PID file as the constructor left it, and /proc lists the number.
  pub server_main-exclusive :
      (argv : List Bytes) (day : Day os) (s : Process os) (e : ℕ) (file : Bytes) (c : ℕ)
      (path : Bytes) (s2 : Process os) (before after : List Bytes) (name arg : Bytes)
      (rest : List Bytes) (other : Bytes)
      → IsPosix os
      → IsErrno day.answers
      → day.answers.getpid < 2 ^ 16
      → os.read s.world pid_file ≡ refused e
      → (main os argv s).0 ≡ run_daemon file
      → (server_main argv day s).0 ≡ still_running
      → scan_word (file ++ codes "\n") ≡ c ∷ path
      → length path < 255
      → os.read s2.world config_load ≡ os.read (main os argv s).1.world config_load
      → (let v =
            (robot_daemon.daemon file run_dir day.answers
              (main os argv s).1.world
              (first_state defaults)).1 in
          os.read s2.world pid_file ≡ os.read v pid_file)
      → os.proc s2.world ≡ some (before ++ to_string day.answers.getpid ∷ after)
      → str_eq arg (option_key 2) ≡ false
      → (main os (name ∷ arg ∷ rest) s2).0 ≢ run_daemon other
  server_main-exclusive argv day s e file c path s2 before after name arg rest other posix errno
        small vacant starts goes_on named fits config kept listed h =
      let l : Loader Settings = first_state defaults in
      let w = (main os argv s).1.world in
      let made = server_main-started argv day s file posix starts goes_on in
      let stored = ((laws posix).constructed file run_dir day.answers w l errno made).1 in
      let live = found s2 day.answers.getpid before after small (kept ∙ stored) listed in
      main-exclusive os posix s2 (pid_line day.answers.getpid) day.answers.getpid live
        (file ++ codes "\n") c path
        (record {
          readable = config ∙ main-IsSaved os posix s e vacant argv file starts;
          named = named;
          fits = fits;
        })
        name arg rest other h
