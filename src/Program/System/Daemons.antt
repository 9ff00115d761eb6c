-- ===== src/Program/System/Daemons.antt =====
-- The daemons of server_main.cpp: robot::daemon with slaves::tcp_server alone.
use robotd.Common.{
  ℕ, ◌≤◌, ◌≡◌, ◌≢◌, length, Bytes, codes, List, [], ◌∷◌, arith, All, ap, Option, ◌++◌, none, false,
  str_eq,
}
use robotd.Definitions.{sigterm}
use robotd.Directories.{pid_file}
use robotd.Posix.{Os, IsPosix, Opened, opened, refused}
use robotd.Loader.State.{Loader}
use robotd.Cli.Options.{option_key}
use robotd.Cli.Parse.{Value, run_option, no_daemon_process}
use robotd.Cli.Parse.Running.{HasConfig}
use robotd.Cli.Parse.Stopped.{run_option-vacant}
use robotd.Posix.Files.{IsFiles}
use robotd.Loader.Settings.{Env}
use robotd.Loader.Class.{first_state}
use robotd.TcpServer.Config.{Settings, defaults, load_config}
use robotd.Daemon.Monitor.{running, ended, SetupCall, first_failure, setup_calls}
use robotd.Daemon.Start.{made, pid_line}
use robotd.Daemon.Class.{Turn, Daemon, DaemonClass}
use robotd.Daemon.Class.Laws.{IsTerm, IsDaemonClass, class-IsDaemonClass}
use robotd.Daemon.Class.Tidy.{IsTidy, class-IsTidy}
use robotd.Program.Main.{robot_daemon}
use robotd.Program.System.{System, Call, process_of, Listed, invoke, leave, Step, Reachable}
use robotd.Program.System.Alone.{IsSingle, Alone}
use robotd.Program.System.Single.{reachable-IsSingle}
use robotd.Program.System.Lock.{Edge, holder, Step-Edge}
use robotd.Program.System.Stop.{IsMade-ended, invoke_stop, leave_stop}
use robotd.Program.System.Restart.{replacement, leave-invoke}

-- There is one daemon at most, and the PID file, as it is read, has its number.
abbrev pub HasNumber : {S : Type 0} → Opened → List (ℕ × Daemon S) → Type 0
HasNumber file daemons = (length daemons ≤ 1) × All (λ x. file ≡ opened (pid_line x.0)) daemons

module _ {os : Os} {S : Type 0} (d : DaemonClass os S) where
  Alone-HasNumber :
      (file : Opened) (daemons : List (ℕ × Daemon S))
      → Alone d file daemons
      → HasNumber file daemons
  Alone-HasNumber file [] h = (omega arith, tt)
  Alone-HasNumber file ((p, o) ∷ []) (stored, small, constructed) = (omega arith, (stored, tt))
  Alone-HasNumber file (x ∷ y ∷ rest) h = absurd h

module _ (os : Os) (env : Env) (unset unset_signo : ℕ) where
  abbrev d : DaemonClass os Settings
  d = robot_daemon os env unset unset_signo

  pub robot_laws : IsPosix os → IsDaemonClass (robot_daemon os env unset unset_signo)
  robot_laws = class-IsDaemonClass os env (codes "Daemon") load_config [] unset unset_signo

  tidy : IsFiles os → IsTidy d
  tidy = class-IsTidy os env (codes "Daemon") load_config [] unset unset_signo

  pub Reachable-IsSingle :
      (posix : IsPosix os) (files : IsFiles os) (sys : System os Settings)
      → Reachable (robot_daemon os env unset unset_signo) (first_state defaults) sys
      → IsSingle (robot_daemon os env unset unset_signo) sys
  Reachable-IsSingle posix files =
      reachable-IsSingle d (first_state defaults) posix files (robot_laws posix) (tidy files)

  -- On a system that is IsPosix and IsFiles: from a machine without a daemon on which
  -- CONFIG_LOAD is missing or has a word in it, whatever command lines run one after the other,
  -- with any answers of the system calls but 0 in errno from a call that fails, with process
  -- numbers below 2^16, /proc listing the daemons that run, and a restart of a running daemon
  -- going on only when that has ended, whichever daemons end or are killed, and as long as
  -- nothing else changes the two files, at most one daemon runs, and the PID file has its
  -- number.
  pub reachable-HasNumber :
      (sys : System os Settings)
      → IsPosix os
      → IsFiles os
      → Reachable d (first_state defaults) sys
      → HasNumber (os.read sys.world pid_file) sys.daemons
  reachable-HasNumber sys posix files r =
      Alone-HasNumber d (os.read sys.world pid_file) sys.daemons
        (Reachable-IsSingle posix files sys r).alone

  abbrev one : os.World → ℕ → Daemon Settings → System os Settings
  one w p o = record { world = w; daemons = (p, o) ∷ [] }

  -- On a system that is IsPosix and IsFiles, in a state that is Reachable with the daemon p,
  -- which /proc lists, and a path in CONFIG_LOAD that fits the buffer: when restart could send
  -- SIGTERM and made a new daemon, with another number, before p ends and could remove the PID
  -- file, then the new daemon runs without a PID file, and every later option but help goes on
  -- as no_daemon_process, as if no daemon ran.
  pub leave-invoke-run_option :
      (w : os.World) (p : ℕ) (o : Daemon Settings) (call : Call) (program saved : Bytes) (c : ℕ)
      (path : Bytes) (next : Call) (arg : Bytes) (value : Value)
      → IsPosix os
      → IsFiles os
      → Reachable d (first_state defaults) (one w p o)
      → Listed (os.proc w) (one w p o).daemons
      → HasConfig os (process_of call w) saved c path
      → call.argv ≡ program ∷ option_key 2 ∷ []
      → (os.kill w p sigterm).0 ≡ none
      → (replacement d (first_state defaults) call (c ∷ path) w p).0 ≡ made
      → call.answers.getpid ≢ p
      → (os.unlink (replacement d (first_state defaults) call (c ∷ path) w p).1 pid_file).0 ≡ none
      → str_eq arg (option_key 5) ≡ false
      → let sys = leave d p (invoke d (first_state defaults) call (one w p o)) in
        let s = process_of next sys.world in
        (length sys.daemons ≡ 1)
        × (e : ℕ) × (os.read sys.world pid_file ≡ refused e)
        × (run_option os arg value s ≡ no_daemon_process os arg value (record s { errno = e }))
  leave-invoke-run_option w p o call program saved c path next arg value posix files r listed config
        restarts sent starts other removed help =
      let l : Loader Settings = first_state defaults in
      let (left, e, gone) =
        leave-invoke d l posix (robot_laws posix) w p o
          (Reachable-IsSingle posix files (one w p o) r) listed call program saved c path config
          restarts sent starts other removed in
      let sys = leave d p (invoke d l call (one w p o)) in
      (
        ap length left,
        e,
        gone,
        run_option-vacant os (process_of next sys.world) e gone arg value help,
      )

  -- On a system that is IsPosix and IsFiles, in a state that is Reachable with the daemon p,
  -- which /proc lists, and a path in CONFIG_LOAD that fits the buffer: the command stop changes
  -- nothing but the world, by a SIGTERM for p; the monitor of that daemon, when it has its
  -- signals set up and still runs after some rounds, ends with 0 in the next round in which a
  -- child can be started and SIGTERM comes; and once it has ended no daemon runs and, if the
  -- PID file can be removed, there is none that can be opened.
  pub leave-invoke-monitor_proc :
      (w : os.World) (p : ℕ) (o : Daemon Settings) (call : Call) (program saved : Bytes) (c : ℕ)
      (path : Bytes) (setup : SetupCall → Option ℕ) (turns : List (Turn os)) (last : Turn os)
      → IsPosix os
      → IsFiles os
      → Reachable d (first_state defaults) (one w p o)
      → Listed (os.proc w) (one w p o).daemons
      → HasConfig os (process_of call w) saved c path
      → call.argv ≡ program ∷ option_key 3 ∷ []
      → first_failure setup setup_calls ≡ none
      → (d.monitor_proc setup turns o).0 ≡ running
      → IsTerm last
      → (os.unlink (os.kill w p sigterm).1 pid_file).0 ≡ none
      → let stopped = invoke d (first_state defaults) call (one w p o) in
        let sys = leave d p stopped in
        (stopped ≡ one (os.kill w p sigterm).1 p o)
        × ((d.monitor_proc setup (turns ++ last ∷ []) o).0 ≡ ended 0)
        × (sys.daemons ≡ [])
        × (e : ℕ) × (os.read sys.world pid_file ≡ refused e)
  leave-invoke-monitor_proc w p o call program saved c path setup turns last posix files r listed
        config stops none_fails goes_on term removed =
      let l : Loader Settings = first_state defaults in
      let h = Reachable-IsSingle posix files (one w p o) r in
      let (stored, small, constructed) = h.alone in
      let (left, e, gone) =
        leave_stop d l posix w p o h listed call program saved c path config stops
          (robot_laws posix) removed in
      (
        invoke_stop d l posix w p o h listed call program saved c path config stops,
        IsMade-ended d (robot_laws posix) o setup turns last constructed none_fails goes_on term,
        left,
        e,
        gone,
      )

  -- On a system that is IsPosix and IsFiles, each step of the machine, in which a command line
  -- runs that does not restart a running daemon, a daemon ends or is killed, or time passes,
  -- from a state that is Reachable, is a step of the abstract lock that help() promises: it
  -- leaves the holder as it is, or a free lock is taken, or its holder gives it up; the lock
  -- never passes from one holder to another at once.
  pub step-holder :
      (sys next : System os Settings)
      → IsPosix os
      → IsFiles os
      → Reachable d (first_state defaults) sys
      → Step d (first_state defaults) sys next
      → Edge (holder sys.daemons) (holder next.daemons)
  step-holder sys next posix files r s =
      Step-Edge d (first_state defaults) posix files (robot_laws posix) (tidy files) sys.world
        sys.daemons next (Reachable-IsSingle posix files sys r) s
