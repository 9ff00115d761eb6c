-- ===== src/Daemon/Monitor/Ends.antt =====
-- How the loop ends.
use robotd.Common.{ℕ, ◌≡◌, true, Option, some, List, [], ◌∷◌, arith}
use robotd.Definitions.{sigchld, sigterm, child_need_terminate}
use robotd.Daemon.Monitor.{
  Forked, in_parent, exit_code, Event, spawned, waited, signalled, Monitor, Round, Outcome, running,
  aborted, ended, exited, start_child, wait_child, child_changed, forward, hang_up, terminate,
  handle, take_signal, dispatch, step, run, monitor_proc, SetupCall,
}

-- The last call before the end.
abbrev pub EndsBy : ℕ → List Event → Type 0
EndsBy n [] = ⊥
EndsBy n (spawned p ∷ events) = ⊥
EndsBy n (waited ∷ events) = n ≡ child_need_terminate
EndsBy n (signalled p s ∷ events) = (n ≡ 0) × (s ≡ sigterm)

module _ {S : Type 0} where
  abbrev EndsWell : Outcome → Monitor S → Type 0
  EndsWell running m = Unit
  EndsWell aborted m = Unit
  EndsWell (ended n) m = EndsBy n m.events × (m.status ≡ n)
  EndsWell (exited n) m = Unit

  dispatch-EndsWell :
      (r : Round S) (f : Forked) (m : Monitor S) → EndsWell (dispatch r f m).0 (dispatch r f m).1
  unfolding dispatch handle wait_child child_changed hang_up terminate forward take_signal
  dispatch-EndsWell r f m = ground arith

  step-EndsWell : (r : Round S) (m : Monitor S) → EndsWell (step r m).0 (step r m).1
  unfolding step
  step-EndsWell r m = dispatch-EndsWell r (start_child r m).pid (start_child r m)

  run-EndsWell :
      (rounds : List (Round S)) (m : Monitor S) → EndsWell (run rounds m).0 (run rounds m).1
  unfolding run
  run-EndsWell [] m = tt
  run-EndsWell (r ∷ rounds) m =
      let (o, n) = step r m in ground (arith, step-EndsWell r m, run-EndsWell rounds n)

  -- When monitor_proc returns n, its last call was wait and n is CHILD_NEED_TERMINATE, or it
  -- was the SIGTERM for the child, which is then not waited for, and n is 0.
  pub monitor_proc-EndsBy :
      (answer : SetupCall → Option ℕ) (rounds : List (Round S)) (m : Monitor S) (n : ℕ)
      → (monitor_proc answer rounds m).0 ≡ ended n
      → EndsBy n (monitor_proc answer rounds m).1.events
  unfolding monitor_proc
  monitor_proc-EndsBy answer rounds m n h =
      ground (arith, run-EndsWell rounds (record m { need_start = true }))

  -- A round in which a child is started and asks for the end.
  pub step-ended :
      (r : Round S) (m : Monitor S) (child status : ℕ)
      → m.need_start ≡ true
      → r.fork ≡ in_parent child
      → r.sigwaitinfo ≡ some sigchld
      → r.wait ≡ some status
      → exit_code status ≡ child_need_terminate
      → (step r m).0 ≡ ended child_need_terminate
  unfolding step start_child dispatch handle wait_child child_changed take_signal
  step-ended r m child status n f s w e = ground (arith, n, f, s, w, e)
