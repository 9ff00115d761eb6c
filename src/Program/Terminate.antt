-- ===== src/Program/Terminate.antt =====
-- SIGTERM on its way from the daemon to the Master process.
use robotd.Common.{ℕ, ◌≡◌, Bytes, Bool, false, Option, some, List, ◌∷◌}
use robotd.Definitions.{sigterm, child_need_terminate}
use robotd.Posix.{Os}
use robotd.Loader.Settings.{Env}
use robotd.Loader.State.{Loader}
use robotd.Loader.Config.{SlaveLoader}
use robotd.Daemon.Monitor.{in_parent, ended, signalled, Monitor}
use robotd.Daemon.Monitor as Monitor
use robotd.Daemon.Monitor.Stops.{step_stops}
use robotd.Daemon.Reload.{reload_config}
use robotd.Daemon.Class.{Turn}
use robotd.Daemon.Class as Daemon
use robotd.Master.Services.{Slave}
use robotd.Master.Work.{Master, running, exited}
use robotd.Master.Class.{master_class, Shift, child}
use robotd.Master.Class.Stops.{one_more, child-End}
use robotd.Master.Reload.{Watch}
use robotd.Master.Reload as Reload

module _ (os : Os) (env : Env) (tag : Bytes) {S : Type 0} (first : SlaveLoader S)
    (rest : List (SlaveLoader S)) (debug : Bool) (demangle : Bytes → Option Bytes) where
  -- When SIGTERM comes in a round of the monitor, which has a child, and in a round of the
  -- Master process, which still works after its shift, then the monitor ends with 0 and has
  -- sent SIGTERM to the child and done nothing else, so without waiting for it, and the Master
  -- process exits with CHILD_NEED_TERMINATE, its slaves and its loader as they were.
  pub terminate-child :
      (turn : Turn os) (watch : Watch os) (m : Monitor S) (p : ℕ) (slaves : List Slave) (signo : ℕ)
      (shift : Shift S) (l : Loader S) (k : Master S)
      → turn.sigwaitinfo ≡ some sigterm
      → watch.sigwait ≡ some sigterm
      → m.pid ≡ in_parent p
      → m.need_start ≡ false
      → child (master_class debug demangle) slaves signo shift l ≡ some (running, k)
      → let d = Monitor.step (Daemon.round_of (reload_config os env tag first rest) turn) m in
        let after = one_more shift (Reload.round_of os env first rest watch) in
        (d.0 ≡ ended 0)
        × (d.1.events ≡ signalled p sigterm ∷ m.events)
        × (n : Master S) × (child (master_class debug demangle) slaves signo after l
            ≡ some (exited child_need_terminate, n))
        × (n.services ≡ k.services)
        × (n.loader ≡ k.loader)
  terminate-child turn watch m p slaves signo shift l k signal signal' has watched works =
      let round = Daemon.round_of (reload_config os env tag first rest) turn in
      let (ends, sent) = step_stops round m p sigterm has watched signal (λ e. cc) (λ e. cc) in
      let last = Reload.round_of os env first rest watch in
      let (n, gone, services, loader) =
        child-End debug demangle slaves signo shift l last sigterm signal' (λ e. cc) k works in
      (ends, sent, n, gone, services, loader)
