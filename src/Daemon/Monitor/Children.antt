-- ===== src/Daemon/Monitor/Children.antt =====
-- The monitor never has two children, and signals none but the one it has.
use robotd.Common.{ℕ, ◌≡◌, ◌≢◌, refl, Bool, true, false, Option, none, some, List, [], ◌∷◌, arith}
use robotd.Daemon.Monitor.{
  Forked, fork_failed, in_child, in_parent, Event, spawned, waited, signalled, Monitor, Round,
  Outcome, running, aborted, ended, exited, start_child, wait_child, child_changed, forward,
  hang_up, terminate, handle, take_signal, dispatch, step, run, monitor_proc, SetupCall,
}

-- The child that was started and not yet waited for, after the calls so far, the last first.
abbrev pub alive : List Event → Option ℕ
alive [] = none
alive (spawned p ∷ events) = some p
alive (waited ∷ events) = none
alive (signalled p s ∷ events) = alive events

-- `fork` only without a child, `wait` only with one, and signals only to it.
abbrev pub IsProper : List Event → Type 0
IsProper [] = Unit
IsProper (spawned p ∷ events) = (alive events ≡ none) × IsProper events
IsProper (waited ∷ events) = (alive events ≢ none) × IsProper events
IsProper (signalled p s ∷ events) = (alive events ≡ some p) × IsProper events

-- Between two rounds: a child is needed exactly when there is none.
abbrev Held : Bool → Forked → List Event → Type 0
Held true pid events = alive events ≡ none
Held false fork_failed events = ⊥
Held false in_child events = ⊥
Held false (in_parent p) events = alive events ≡ some p

abbrev Started : Forked → List Event → Type 0
Started fork_failed events = Unit
Started in_child events = Unit
Started (in_parent p) events = alive events ≡ some p

module _ {S : Type 0} where
  record IsReady (m : Monitor S) : Type 0 where
    proper : IsProper m.events
    held : Held m.need_start m.pid m.events

  abbrev Goes : Outcome → Monitor S → Type 0
  Goes running n = IsReady n
  Goes aborted n = IsProper n.events
  Goes (ended k) n = IsProper n.events
  Goes (exited k) n = IsProper n.events

  start_child-Started :
      (r : Round S) (m : Monitor S)
      → IsReady m
      → IsProper (start_child r m).events
        × Started (start_child r m).pid (start_child r m).events
        × ((start_child r m).need_start ≡ true)
  unfolding start_child
  start_child-Started r m h = ground arith

  dispatch-Goes :
      (r : Round S) (f : Forked) (m : Monitor S)
      → IsProper m.events
      → Started f m.events
      → f ≡ m.pid
      → m.need_start ≡ true
      → Goes (dispatch r f m).0 (dispatch r f m).1
  unfolding dispatch handle wait_child child_changed hang_up terminate forward take_signal
  dispatch-Goes r f m p s e n = ground arith

  step-Goes : (r : Round S) (m : Monitor S) → IsReady m → Goes (step r m).0 (step r m).1
  unfolding step
  step-Goes r m h =
      let (p, s, n) = start_child-Started r m h in
      dispatch-Goes r (start_child r m).pid (start_child r m) p s refl n

  step-running :
      (r : Round S) (m : Monitor S) → IsReady m → (step r m).0 ≡ running → IsReady (step r m).1
  step-running r m h e = let (o, n) = step r m in goes o n (step-Goes r m h) e
    where
      goes : (o : Outcome) (n : Monitor S) → Goes o n → o ≡ running → IsReady n
      goes running n g e = g
      goes aborted n g e = cc
      goes (ended k) n g e = cc
      goes (exited k) n g e = cc

  run-IsProper :
      (rounds : List (Round S)) (m : Monitor S) → IsReady m → IsProper (run rounds m).1.events
  unfolding run
  run-IsProper [] m h = h.proper
  run-IsProper (r ∷ rounds) m h =
      let (o, n) = step r m in ground (arith, step-Goes r m h, run-IsProper rounds n)

  -- From its first round on, whatever the calls answer, the monitor calls fork only while it
  -- has no child that it did not wait for, calls wait only while it has one, and sends every
  -- signal to that one.
  pub monitor_proc-IsProper :
      (answer : SetupCall → Option ℕ) (rounds : List (Round S)) (m : Monitor S)
      → m.events ≡ []
      → IsProper (monitor_proc answer rounds m).1.events
  unfolding monitor_proc
  monitor_proc-IsProper answer rounds m e =
      ground (arith, run-IsProper rounds (record m { need_start = true }))
