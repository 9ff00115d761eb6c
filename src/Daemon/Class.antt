-- ===== src/Daemon/Class.antt =====
-- The class robot::daemon of daemon/daemon.hpp: its members and operations, and the object that its
-- constructor makes.
pub mod Laws
pub mod Tidy
use robotd.Common.{ℕ, Bytes, Bool, true, Option, none, List, [], ◌∷◌, map}
use robotd.Posix.{Os}
use robotd.Loader.Settings.{Env}
use robotd.Loader.State.{Loader}
use robotd.Loader.Config.{Loaded, SlaveLoader}
use robotd.Loader.Class.{LoaderClass, loader}
use robotd.Daemon.Monitor.{Forked, in_child, Monitor, Outcome, SetupCall, Round}
use robotd.Daemon.Monitor as Monitor
use robotd.Daemon.Start.{Answers, Made, Daemonized, Complaint, pid_path}
use robotd.Daemon.Start as Start
use robotd.Daemon.Reload as Reload

-- What the surroundings do in one round of `monitor_proc`: the answers of the calls, and the world in
-- which a reload finds `CONFIG_LOAD`.
pub record Turn (os : Os) : Type 0 where
  pub fork : Forked
  pub work_proc : ℕ
  pub sigwaitinfo : Option ℕ
  pub wait : Option ℕ
  pub kill : Bool
  pub world : os.World

-- An object of the class. `monitor` holds `pid`, `status`, what is inherited from robot::loader, and the
-- variables of `monitor_proc`.
pub record Daemon (S : Type 0) : Type 0 where
  pub pid_file : Bytes
  pub config : Bytes
  pub monitor : Monitor S

-- The operations. `load` is `daemon_load_config` of the base class for the slaves of this one. The
-- constructor takes the name of the configuration file and the directory of the PID file.
pub record DaemonClass (os : Os) (S : Type 0) : Type 0 where
  pub load : Bytes → Loader S → Loaded × Loader S
  pub daemonize : Bytes → Bool → Answers → os.World → Daemonized × os.World × List Complaint
  pub set_pid_file : Bytes → ℕ → os.World → Option ℕ × os.World
  pub reload_config : os.World → Loader S → Loaded × Loader S
  pub daemon : Bytes → Bytes → Answers → os.World → Loader S → Made × os.World × Daemon S
  pub destroy : Daemon S → os.World → os.World
  pub monitor_proc : (SetupCall → Option ℕ) → List (Turn os) → Daemon S → Outcome × Daemon S

module _ {os : Os} {S : Type 0} where
  -- A round in which a reload is that of the class.
  abbrev pub round_of : (os.World → Loader S → Loaded × Loader S) → Turn os → Round S
  round_of reload t = record {
    fork = t.fork;
    work_proc = t.work_proc;
    sigwaitinfo = t.sigwaitinfo;
    wait = t.wait;
    reload_config = reload t.world;
    kill = t.kill;
  }

module _ {S : Type 0} where
  -- The members before a child was forked. `daemonize` leaves 0 in `pid`, its own `fork` having returned
  -- in the new process. `status` and the signal are not set; any number stands for them.
  abbrev pub begun : ℕ → ℕ → Loader S → Monitor S
  begun status signo l = record {
    pid = in_child;
    status = status;
    need_start = true;
    signo = signo;
    loader = l;
    events = [];
    output = [];
  }

-- The class for the slaves `first` and `rest`, whose logger has the name `tag`.
module _ (os : Os) (env : Env) (tag : Bytes) {S : Type 0} (first : SlaveLoader S)
    (rest : List (SlaveLoader S)) (status signo : ℕ) where
  make : Bytes → Bytes → Answers → os.World → Loader S → Made × os.World × Daemon S
  make config pid_dir a w l =
      let base : LoaderClass S = loader env tag in
      let (m, v, t) =
        Start.daemon os (pid_path pid_dir) (base.daemon_load_config first rest config) a w l in
      (
        m,
        v,
        record { pid_file = pid_path pid_dir; config = config; monitor = begun status signo t },
      )

  watch : (SetupCall → Option ℕ) → List (Turn os) → Daemon S → Outcome × Daemon S
  watch answer turns d =
      let reload = Reload.reload_config os env tag first rest in
      let (o, m) = Monitor.monitor_proc answer (map (round_of reload) turns) d.monitor in
      (o, record d { monitor = m })

  unfoldable pub daemon_class : DaemonClass os S
  unfolding make watch
  daemon_class = record {
    load = LoaderClass.daemon_load_config (loader env tag) first rest;
    daemonize = Start.daemonize os;
    set_pid_file = Start.set_pid_file os;
    reload_config = Reload.reload_config os env tag first rest;
    daemon = make;
    destroy = λ d w. Start.destroy os d.pid_file w;
    monitor_proc = watch;
  }
