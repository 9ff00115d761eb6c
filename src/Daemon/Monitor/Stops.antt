-- ===== src/Daemon/Monitor/Stops.antt =====
-- A signal that is neither SIGCHLD nor SIGHUP ends the loop, whatever went before.
use robotd.Common.{ℕ, ◌≡◌, ◌≢◌, refl, true, false, Option, none, some, List, [], ◌∷◌, ◌++◌, arith}
use robotd.Definitions.{sighup, sigterm, sigchld}
use robotd.Daemon.Monitor.{
  in_parent, fork_failed, exited, signalled, Monitor, Round, running, ended, start_child, terminate,
  handle, take_signal, dispatch, step, run, monitor_proc, SetupCall, first_failure, setup_calls,
}
use robotd.Daemon.Monitor.Supervisor.{
  IsWaiting, starts, run-Reaches, monitor_proc-run, Waits-running,
}

-- A round in which a child can be started and such a signal comes.
pub record IsStop {S : Type 0} (r : Round S) : Type 0 where
  pub child : ℕ
  pub started : r.fork ≡ in_parent child
  pub signal : ℕ
  pub came : r.sigwaitinfo ≡ some signal
  pub no_child : signal ≢ sigchld
  pub no_reload : signal ≢ sighup

module _ {S : Type 0} where
  step-IsStop :
      (r : Round S) (m : Monitor S)
      → IsStop r
      → IsWaiting m.need_start m.pid
      → (step r m).0 ≡ ended 0
  unfolding step start_child dispatch handle terminate take_signal
  step-IsStop r m h w = ground (arith, h.started, h.came, h.no_child, h.no_reload)

  -- With a child, such a round hands SIGTERM on to it and does nothing else.
  pub step_stops :
      (r : Round S) (m : Monitor S) (p signal : ℕ)
      → m.pid ≡ in_parent p
      → m.need_start ≡ false
      → r.sigwaitinfo ≡ some signal
      → signal ≢ sigchld
      → signal ≢ sighup
      → ((step r m).0 ≡ ended 0) × ((step r m).1.events ≡ signalled p sigterm ∷ m.events)
  unfolding step start_child dispatch handle terminate take_signal
  step_stops r m p signal child watched came other other' =
      ground (arith, child, watched, came, other, other')

  run-append :
      (rounds : List (Round S)) (r : Round S) (m : Monitor S)
      → (run rounds m).0 ≡ running
      → run (rounds ++ r ∷ []) m ≡ run (r ∷ []) (run rounds m).1
  unfolding run
  run-append [] r m h = refl
  run-append (first ∷ rounds) r m h =
      let (o, n) = step first m in ground (arith, run-append rounds r n)

  run-one :
      (r : Round S) (m : Monitor S) (n : ℕ) → (step r m).0 ≡ ended n → (run (r ∷ []) m).0 ≡ ended n
  unfolding run
  run-one r m n h = let (o, t) = step r m in ground arith

  -- The monitor of a fresh object, whatever the rounds before.
  pub monitor_proc-IsStop :
      (answer : SetupCall → Option ℕ) (rounds : List (Round S)) (r : Round S) (m : Monitor S)
      → m.events ≡ []
      → first_failure answer setup_calls ≡ none
      → (monitor_proc answer rounds m).0 ≡ running
      → IsStop r
      → (monitor_proc answer (rounds ++ r ∷ []) m).0 ≡ ended 0
  monitor_proc-IsStop answer rounds r m fresh none_fails goes_on h =
      let n = record m { need_start = true } in
      let still = rw (monitor_proc-run answer rounds m none_fails) at goes_on in
      let waits = (run-Reaches [] rounds n tt (rw fresh starts)).0 in
      rw (monitor_proc-run answer (rounds ++ r ∷ []) m none_fails, run-append rounds r n still)
        (run-one r (run rounds n).1 0 (
          step-IsStop r (run rounds n).1 h
            (Waits-running (run rounds n).0 (run rounds n).1 still waits)))

  -- A round that needs a child, in which fork fails.
  step_unforked :
      (r : Round S) (m : Monitor S)
      → m.need_start ≡ true
      → r.fork ≡ fork_failed
      → (step r m).0 ≡ exited 1
  unfolding step start_child dispatch
  step_unforked r m need failed = ground (arith, need, failed)

  run_unforked :
      (r : Round S) (m : Monitor S)
      → m.need_start ≡ true
      → r.fork ≡ fork_failed
      → (run (r ∷ []) m).0 ≡ exited 1
  unfolding run
  run_unforked r m need failed =
      let (o, t) = step r m in ground (arith, step_unforked r m need failed)

  pub monitor_proc_unforked :
      (answer : SetupCall → Option ℕ) (rounds : List (Round S)) (r : Round S) (m : Monitor S)
      → first_failure answer setup_calls ≡ none
      → (monitor_proc answer rounds m).0 ≡ running
      → (monitor_proc answer rounds m).1.need_start ≡ true
      → r.fork ≡ fork_failed
      → (monitor_proc answer (rounds ++ r ∷ []) m).0 ≡ exited 1
  monitor_proc_unforked answer rounds r m none_fails goes_on need failed =
      let n = record m { need_start = true } in
      let whole = monitor_proc-run answer rounds m none_fails in
      let still = rw whole at goes_on in
      rw (monitor_proc-run answer (rounds ++ r ∷ []) m none_fails, run-append rounds r n still)
        (run_unforked r (run rounds n).1 (rw whole at need) failed)
