-- ===== src/Daemon/Class/Tidy.antt =====
-- Which files the objects of robot::daemon touch.
use robotd.Common.{ℕ, ◌≡◌, ◌≢◌, Bytes, List}
use robotd.Posix.{Os}
use robotd.Posix.Files.{IsFiles}
use robotd.Loader.Settings.{Env}
use robotd.Loader.State.{Loader}
use robotd.Loader.Config.{SlaveLoader, daemon_load_config}
use robotd.Daemon.Start.{Answers, pid_path}
use robotd.Daemon.Start.Frame.{daemon-Same}
use robotd.Daemon.Class.{Daemon, DaemonClass, make, daemon_class}

-- The constructor and the destructor leave every file alone but the PID file.
pub record IsTidy {os : Os} {S : Type 0} (d : DaemonClass os S) : Type 0 where
  pub constructor_read :
      (config dir : Bytes) (a : Answers) (w : os.World) (l : Loader S) (other : Bytes)
      → pid_path dir ≢ other
      → os.read (d.daemon config dir a w l).1 other ≡ os.read w other
  pub destroy_read :
      (o : Daemon S) (w : os.World) (other : Bytes)
      → o.pid_file ≢ other
      → os.read (d.destroy o w) other ≡ os.read w other

-- The class does.
pub class-IsTidy :
    (os : Os) (env : Env) (tag : Bytes) {S : Type 0} (first : SlaveLoader S)
    (rest : List (SlaveLoader S)) (status signo : ℕ)
    → IsFiles os
    → IsTidy (daemon_class os env tag first rest status signo)
unfolding daemon_class make
class-IsTidy os env tag first rest status signo files = record {
  constructor_read = λ config dir a w l other differ.
      daemon-Same os files (pid_path dir) other differ
        (daemon_load_config env tag first rest config) a w l;
  destroy_read = λ o w other differ. files.unlink_other w o.pid_file other differ;
}
