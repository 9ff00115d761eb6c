-- ===== src/Daemon/Monitor/Reloads.antt =====
-- A round with SIGHUP, and what it leaves in the loader of the daemon.
use robotd.Common.{ℕ, ◌≡◌, ℤ, false, some, ◌∷◌, arith}
use robotd.Definitions.{sighup}
use robotd.Loader.Config.{returned}
use robotd.Daemon.Monitor.{
  in_parent, signalled, Monitor, Round, running, start_child, forward, hang_up, handle, take_signal,
  dispatch, step,
}

module _ {S : Type 0} (r : Round S) (m : Monitor S) where
  -- The daemon has loaded, its child gets the signal, and it goes on with that child.
  pub step_reloads :
      (p : ℕ) (n : ℤ)
      → m.pid ≡ in_parent p
      → m.need_start ≡ false
      → r.sigwaitinfo ≡ some sighup
      → (r.reload_config m.loader).0 ≡ returned n
      → ((step r m).0 ≡ running)
        × ((step r m).1.loader ≡ (r.reload_config m.loader).1)
        × ((step r m).1.events ≡ signalled p sighup ∷ m.events)
  unfolding step start_child dispatch handle hang_up forward take_signal
  step_reloads p n child watched signal e = ground (arith, child, watched, signal, e)
