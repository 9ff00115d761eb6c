-- ===== src/Program.antt =====
-- main of server_main.cpp as a whole: the command line, and then the object of robot::daemon from its
-- constructor to its destructor.
pub mod Life
pub mod Orphan
pub mod Main
pub mod Reload
pub mod System
pub mod Terminate
mod Tests
use robotd.Common.{ℕ, ◌%◌, Bytes, exit_status, Option, List}
use robotd.Directories.{run_dir}
use robotd.Posix.{Os}
use robotd.Loader.State.{Loader}
use robotd.Cli.State.{Process}
use robotd.Cli.Parse.{run_daemon}
use robotd.Cli.Parse as Cli
use robotd.Daemon.Monitor.{SetupCall}
use robotd.Daemon.Monitor as Monitor
use robotd.Daemon.Start.{Answers, made, aborts, exits}
use robotd.Daemon.Class.{Turn, Daemon, DaemonClass}

-- What a run meets once the command line is read: the answers in the constructor, those of `monitor_proc`,
-- and the world that it leaves.
pub record Day (os : Os) : Type 0 where
  pub answers : Answers
  pub setup : SetupCall → Option ℕ
  pub turns : List (Turn os)
  pub end_world : os.World

-- How the process ends: by an exit status, by an exception or a null pointer, or not yet.
pub data Fate : Type 0 where
  still_running killed : Fate
  status : ℕ → Fate

module _ {os : Os} {S : Type 0} (d : DaemonClass os S) where
  -- After `monitor_proc`. When it returns, `main` returns 0 and the object is destroyed; `exit` destroys no
  -- object of `main`.
  unfoldable pub finish : Monitor.Outcome → Daemon S → os.World → Fate × os.World
  finish Monitor.running o w = (still_running, w)
  finish Monitor.aborted o w = (killed, w)
  finish (Monitor.exited n) o w = (status (n % 256), w)
  finish (Monitor.ended n) o w = (status 0, d.destroy o w)

  -- The object is made with the default directory, and watches.
  unfoldable pub serve : Bytes → Day os → os.World → Loader S → Fate × os.World
  serve file day w l =
      let (m, v, o) = d.daemon file run_dir day.answers w l in
      let (end, p) = d.monitor_proc day.setup day.turns o in
      elim m [
        | aborts ↦ (killed, v)
        | exits n ↦ (status (exit_status n), v)
        | made ↦ finish end p day.end_world
      ]

  unfoldable pub program : List Bytes → Day os → Process os → Loader S → Fate × os.World
  program argv day s l =
      let (o, t) = Cli.main os argv s in
      elim o [
        | Cli.exits n ↦ (status n, t.world)
        | Cli.crashes ↦ (killed, t.world)
        | run_daemon file ↦ serve file day t.world l
      ]
