-- ===== src/Program/Reload.antt =====
-- SIGHUP on its way from the daemon through the Master process to the slaves.
use robotd.Common.{ℕ, ◌≡◌, ap, ◌∙◌, ◌++◌, Bytes, codes, ℤ, false, some, List, ◌∷◌, All}
use robotd.Definitions.{sighup}
use robotd.Directories.{config_load}
use robotd.Posix.{Os, opened}
use robotd.Loader.Settings.{Env}
use robotd.Loader.Config.{returned, SlaveLoader, daemon_load_config}
use robotd.Daemon.Monitor.{in_parent, signalled, Monitor, Round}
use robotd.Daemon.Monitor as Monitor
use robotd.Daemon.Monitor.Reloads.{step_reloads}
use robotd.Daemon.Reload.{IsOneLine, restored, first_line-append, reload_config}
use robotd.Daemon.Class.{Turn}
use robotd.Daemon.Class as Daemon
use robotd.Master.Work.{Master}
use robotd.Master.Work as Work
use robotd.Master.Work.Levels.{LogsAt, step-LogsAt}
use robotd.Master.Reload.{Watch, load_saved}
use robotd.Master.Reload as Reload

restored_lem :
    (os : Os) (w : os.World) (file : Bytes)
    → os.read w config_load ≡ opened (file ++ codes "\n")
    → IsOneLine file
    → restored (os.read w config_load) ≡ file
restored_lem os w file saved one = ap restored saved ∙ first_line-append file one

module _ (os : Os) (env : Env) (tag : Bytes) {S : Type 0} (first : SlaveLoader S)
    (rest : List (SlaveLoader S)) where
  -- When CONFIG_LOAD holds a path without a line break, and SIGHUP comes in a round of the
  -- monitor that has a child and in a round of the loop of the Master process, where the load
  -- of that path returns a number in each, then the child is sent SIGHUP and nothing else, each
  -- process has loaded that path, and every slave logs at the level that the load left in the
  -- Master process.
  pub hang_up-LogsAt :
      (file : Bytes) (turn : Turn os) (watch : Watch os) (m : Monitor S) (k : Master S) (p : ℕ)
      (n j : ℤ)
      → os.read turn.world config_load ≡ opened (file ++ codes "\n")
      → os.read watch.world config_load ≡ opened (file ++ codes "\n")
      → IsOneLine file
      → turn.sigwaitinfo ≡ some sighup
      → watch.sigwait ≡ some sighup
      → m.pid ≡ in_parent p
      → m.need_start ≡ false
      → (daemon_load_config env tag first rest file m.loader).0 ≡ returned n
      → (daemon_load_config env (codes "Master") first rest file k.loader).0 ≡ returned j
      → let d = Monitor.step (Daemon.round_of (reload_config os env tag first rest) turn) m in
        let c = Work.step (Reload.round_of os env first rest watch) k in
        (d.1.events ≡ signalled p sighup ∷ m.events)
        × (d.1.loader ≡ (daemon_load_config env tag first rest file m.loader).1)
        × (c.1.loader ≡ (daemon_load_config env (codes "Master") first rest file k.loader).1)
        × All (LogsAt c.1.loader.lev) c.1.services
  unfolding reload_config load_saved
  hang_up-LogsAt file turn watch m k p n j saved saved' one signal signal' child watched e e' =
      let same =
        ap (λ f. daemon_load_config env tag first rest f m.loader)
          (restored_lem os turn.world file saved one) in
      let same' =
        ap (λ f. daemon_load_config env (codes "Master") first rest f k.loader)
          (restored_lem os watch.world file saved' one) in
      let d =
        step_reloads (Daemon.round_of (reload_config os env tag first rest) turn) m p n child
          watched signal (ap (λ r. r.0) same ∙ e) in
      let c =
        step-LogsAt (Reload.round_of os env first rest watch) k j signal'
          (ap (λ r. r.0) same' ∙ e') in
      (d.2, d.1 ∙ ap (λ r. r.1) same, c.1 ∙ ap (λ r. r.1) same', rw c.1 c.2)
