-- ===== src/Daemon/Class/Laws.antt =====
-- What the clients of robot::daemon rely on, and that the class has it.
use robotd.Common.{
  ℕ, ◌≡◌, refl, ◌++◌, Bytes, codes, pos, Option, none, some, true, List, [], ◌∷◌, map, ap, ◌∙◌,
}
use robotd.Definitions.{sigterm}
use robotd.Directories.{config_load}
use robotd.Posix.{Os, opened, refused, IsPosix}
use robotd.Loader.Settings.{Env}
use robotd.Loader.State.{Loader}
use robotd.Loader.Config.{returned, SlaveLoader, daemon_load_config}
use robotd.Daemon.Monitor.{
  Forked, in_parent, fork_failed, Monitor, Round, running, ended, exited, SetupCall, first_failure,
  setup_calls,
}
use robotd.Daemon.Monitor as Monitor
use robotd.Daemon.Monitor.Stops.{monitor_proc-IsStop, monitor_proc_unforked}
use robotd.Daemon.Start.{Answers, made, pid_path, pid_line, daemon}
use robotd.Daemon.Start.Fate.{IsErrno, daemon-made}
use robotd.Daemon.Reload.{IsOneLine, restored, first_line-append, reload_config}
use robotd.Daemon.Class.{Turn, Daemon, DaemonClass, round_of, begun, make, watch, daemon_class}

-- A turn in which a child can be started and SIGTERM comes.
pub record IsTerm {os : Os} (t : Turn os) : Type 0 where
  pub child : ℕ
  pub started : t.fork ≡ in_parent child
  pub came : t.sigwaitinfo ≡ some sigterm

pub record IsDaemonClass {os : Os} {S : Type 0} (d : DaemonClass os S) : Type 0 where
  -- a reload loads the path that `CONFIG_LOAD` holds
  pub reloaded :
      (w : os.World) (path : Bytes)
      → os.read w config_load ≡ opened (path ++ codes "\n")
      → IsOneLine path
      → (l : Loader S) → d.reload_config w l ≡ d.load path l
  -- an object was loaded without an error, and its number stands in the PID file
  pub constructed :
      (config dir : Bytes) (a : Answers) (w : os.World) (l : Loader S)
      → IsErrno a
      → (d.daemon config dir a w l).0 ≡ made
      → ((d.load config l).0 ≡ returned (pos 0))
        × (os.read (d.daemon config dir a w l).1 (pid_path dir) ≡ opened (pid_line a.getpid))
  -- it keeps the name of that file
  pub named :
      (config dir : Bytes) (a : Answers) (w : os.World) (l : Loader S)
      → (d.daemon config dir a w l).2.pid_file ≡ pid_path dir
  -- the monitor of an object ends by SIGTERM, whatever it did before
  pub terminated :
      (config dir : Bytes) (a : Answers) (w : os.World) (l : Loader S)
      (answer : SetupCall → Option ℕ) (turns : List (Turn os)) (last : Turn os)
      → first_failure answer setup_calls ≡ none
      → (d.monitor_proc answer turns (d.daemon config dir a w l).2).0 ≡ running
      → IsTerm last
      → (d.monitor_proc answer (turns ++ last ∷ []) (d.daemon config dir a w l).2).0 ≡ ended 0
  -- the process ends by `exit` when a child is needed and fork fails
  pub unforked :
      (answer : SetupCall → Option ℕ) (turns : List (Turn os)) (last : Turn os) (o : Daemon S)
      → first_failure answer setup_calls ≡ none
      → (d.monitor_proc answer turns o).0 ≡ running
      → (d.monitor_proc answer turns o).1.monitor.need_start ≡ true
      → last.fork ≡ fork_failed
      → (d.monitor_proc answer (turns ++ last ∷ []) o).0 ≡ exited 1
  -- the monitor does not change the name of the PID file
  pub kept :
      (answer : SetupCall → Option ℕ) (turns : List (Turn os)) (o : Daemon S)
      → (d.monitor_proc answer turns o).1.pid_file ≡ o.pid_file
  -- the destructor removes that file, if the call succeeds
  pub removed :
      (o : Daemon S) (w : os.World)
      → (os.unlink w o.pid_file).0 ≡ none
      → (e : ℕ) × (os.read (d.destroy o w) o.pid_file ≡ refused e)

map-append {ℓ κ} :
    {A : Type ℓ} {B : Type κ} (f : A → B) (xs ys : List A) → map f (xs ++ ys) ≡ map f xs ++ map f ys
map-append f [] ys = refl
map-append f (x ∷ xs) ys = ap (λ t. f x ∷ t) (map-append f xs ys)

module _ (os : Os) (env : Env) (tag : Bytes) {S : Type 0} (first : SlaveLoader S)
    (rest : List (SlaveLoader S)) (status signo : ℕ) where
  abbrev class : DaemonClass os S
  class = daemon_class os env tag first rest status signo

  class-reloaded :
      (w : os.World) (path : Bytes)
      → os.read w config_load ≡ opened (path ++ codes "\n")
      → IsOneLine path
      → (l : Loader S) → class.reload_config w l ≡ class.load path l
  unfolding daemon_class reload_config
  class-reloaded w path saved one l =
      ap (λ o. daemon_load_config env tag first rest (restored o) l) saved
      ∙ ap (λ p. daemon_load_config env tag first rest p l) (first_line-append path one)

  class-constructed :
      IsPosix os
      → (config dir : Bytes) (a : Answers) (w : os.World) (l : Loader S) → IsErrno a
      → (class.daemon config dir a w l).0 ≡ made
      → ((class.load config l).0 ≡ returned (pos 0))
        × (os.read (class.daemon config dir a w l).1 (pid_path dir) ≡ opened (pid_line a.getpid))
  unfolding daemon_class make
  class-constructed posix config dir a w l e h =
      let (loads, d) =
        daemon-made os (pid_path dir) (daemon_load_config env tag first rest config) a w l posix e
          h in
      (loads, d.stored)

  class-terminated :
      (config dir : Bytes) (a : Answers) (w : os.World) (l : Loader S)
      (answer : SetupCall → Option ℕ) (turns : List (Turn os)) (last : Turn os)
      → first_failure answer setup_calls ≡ none
      → (class.monitor_proc answer turns (class.daemon config dir a w l).2).0 ≡ running
      → IsTerm last
      → (class.monitor_proc answer (turns ++ last ∷ []) (class.daemon config dir a w l).2).0
        ≡ ended 0
  unfolding daemon_class make watch
  class-terminated config dir a w l answer turns last none_fails goes_on h =
      let reload = reload_config os env tag first rest in
      let m =
        begun status signo
          (daemon os (pid_path dir) (daemon_load_config env tag first rest config) a w l).2 in
      ap (λ rounds. (Monitor.monitor_proc answer rounds m).0)
        (map-append (round_of reload) turns (last ∷ []))
      ∙ monitor_proc-IsStop answer (map (round_of reload) turns) (round_of reload last) m refl
          none_fails goes_on
          (record {
            child = h.child;
            started = h.started;
            signal = sigterm;
            came = h.came;
            no_child = λ e. cc;
            no_reload = λ e. cc;
          })

  class-unforked :
      (answer : SetupCall → Option ℕ) (turns : List (Turn os)) (last : Turn os) (o : Daemon S)
      → first_failure answer setup_calls ≡ none
      → (class.monitor_proc answer turns o).0 ≡ running
      → (class.monitor_proc answer turns o).1.monitor.need_start ≡ true
      → last.fork ≡ fork_failed
      → (class.monitor_proc answer (turns ++ last ∷ []) o).0 ≡ exited 1
  unfolding daemon_class watch
  class-unforked answer turns last o none_fails goes_on need failed =
      let reload = reload_config os env tag first rest in
      ap (λ rounds. (Monitor.monitor_proc answer rounds o.monitor).0)
        (map-append (round_of reload) turns (last ∷ []))
      ∙ monitor_proc_unforked answer (map (round_of reload) turns) (round_of reload last) o.monitor
          none_fails goes_on need failed

  -- The class keeps the laws.
  pub class-IsDaemonClass : IsPosix os → IsDaemonClass class
  unfolding daemon_class make watch
  class-IsDaemonClass posix = record {
    reloaded = class-reloaded;
    constructed = class-constructed posix;
    named = λ config dir a w l. refl;
    terminated = class-terminated;
    unforked = class-unforked;
    kept = λ answer turns o. refl;
    removed = λ o w h. posix.read_unlinked w o.pid_file h;
  }
