-- ===== src/Daemon/Monitor/Supervisor.antt =====
-- What daemon/daemon.hpp promises of `monitor_proc`, as a supervisor of one process that is driven by
-- what the system tells it in each round, without the log and the loader.
use robotd.Common.{
  ℕ, ◌≡◌, ◌≢◌, refl, Bool, true, false, Option, none, List, [], ◌∷◌, ◌++◌, arith, ◌==◌, Bool-cases,
  inl, inr, append_assoc,
}
use robotd.Definitions.{child_need_terminate, sighup, sigterm, sigchld}
use robotd.Loader.Config.{Loaded, returned, thrown, or_else}
use robotd.Daemon.Monitor.{
  Forked, fork_failed, in_child, in_parent, Event, spawned, waited, signalled, Monitor, Round,
  Outcome, running, aborted, ended, exited, start_child, wait_child, child_changed, forward,
  hang_up, terminate, handle, take_signal, dispatch, step, run, monitor_proc, SetupCall,
  first_failure, setup_calls, exit_code, note,
}

-- No process is watched, one is, this is the new process, and the three ways to end.
pub data Phase : Type 0 where
  vacant child stopped failed killed : Phase
  watching : ℕ → Phase

-- What the system tells the supervisor in one round: the answer of `fork`, the signal that is taken, the
-- exit code of a child that is waited for, and whether an exception ends the reload.
pub record Answers : Type 0 where
  pub fork : Forked
  pub signal : ℕ
  pub code : ℕ
  pub throws : Bool

-- What a supervisor that watches the process `p` does, with its calls, the last one first.
pub data Turn (a : Answers) (p : ℕ) : List Event → Phase → Type 0 where
  child_ends : a.signal ≡ sigchld → a.code ≢ child_need_terminate → Turn a p (waited ∷ []) vacant
  child_asks_to_stop :
      a.signal ≡ sigchld → a.code ≡ child_need_terminate → Turn a p (waited ∷ []) stopped
  reloads : a.signal ≡ sighup → a.throws ≡ false → Turn a p (signalled p sighup ∷ []) (watching p)
  reload_throws : a.signal ≡ sighup → a.throws ≡ true → Turn a p [] killed
  terminates : a.signal ≢ sigchld → a.signal ≢ sighup → Turn a p (signalled p sigterm ∷ []) stopped

-- A round, which starts with `fork` if no process is watched.
pub data Edge (a : Answers) : Phase → List Event → Phase → Type 0 where
  fork_fails : a.fork ≡ fork_failed → Edge a vacant [] failed
  becomes_child : a.fork ≡ in_child → Edge a vacant [] child
  forks :
      {p : ℕ} {new : List Event} {t : Phase}
      → a.fork ≡ in_parent p
      → Turn a p new t
      → Edge a vacant (new ++ spawned p ∷ []) t
  watches : {p : ℕ} {new : List Event} {t : Phase} → Turn a p new t → Edge a (watching p) new t

-- The answers and the calls that lead to a phase, the last ones first, and the phase.
pub data Reaches : List Answers → List Event → Phase → Type 0 where
  starts : Reaches [] [] vacant
  then :
      {heard : List Answers} {events new : List Event} {s t : Phase} {a : Answers}
      → Reaches heard events s
      → Edge a s new t
      → Reaches (a ∷ heard) (new ++ events) t

-- The phase in which a round starts.
abbrev pub between : Bool → Forked → Phase
between true pid = vacant
between false fork_failed = failed
between false in_child = child
between false (in_parent p) = watching p

-- The phase once `fork` has returned.
abbrev forked : Forked → Phase
forked fork_failed = failed
forked in_child = child
forked (in_parent p) = watching p

abbrev is_thrown : Loaded → Bool
is_thrown thrown = true
is_thrown (returned n) = false

-- Between rounds a process is watched or needed.
abbrev pub IsWaiting : Bool → Forked → Type 0
IsWaiting true pid = Unit
IsWaiting false fork_failed = ⊥
IsWaiting false in_child = ⊥
IsWaiting false (in_parent p) = Unit

IsWaiting-cases :
    (needed : Bool) (f : Forked) → needed ≡ false → IsWaiting needed f → (p : ℕ) × (f ≡ in_parent p)
IsWaiting-cases true f e w = cc
IsWaiting-cases false fork_failed e w = absurd w
IsWaiting-cases false in_child e w = absurd w
IsWaiting-cases false (in_parent p) e w = (p, refl)

module _ {S : Type 0} where
  abbrev pub phase : Outcome → Monitor S → Phase
  phase running m = between m.need_start m.pid
  phase aborted m = killed
  phase (ended n) m = stopped
  phase (exited n) m = forked m.pid

  abbrev pub Waits : Outcome → Monitor S → Type 0
  Waits running m = IsWaiting m.need_start m.pid
  Waits aborted m = Unit
  Waits (ended n) m = Unit
  Waits (exited n) m = Unit

  pub Waits-running :
      (o : Outcome) (m : Monitor S) → o ≡ running → Waits o m → IsWaiting m.need_start m.pid
  Waits-running running m e w = w
  Waits-running aborted m e w = cc
  Waits-running (ended n) m e w = cc
  Waits-running (exited n) m e w = cc

  -- A signal or a status that is not given is the one before.
  abbrev pub answers : Round S → Monitor S → Answers
  answers r m = record {
    fork = r.fork;
    signal = or_else r.sigwaitinfo m.signo;
    code = exit_code (or_else r.wait m.status);
    throws = is_thrown (r.reload_config m.loader).0;
  }

  -- The answers of the rounds until the loop ends, after those before them.
  abbrev pub heard : List Answers → List (Round S) → Monitor S → List Answers
  heard before [] m = before
  heard before (r ∷ rounds) m =
      let (o, n) = step r m in
      let now = answers r m ∷ before in
      elim o [ running ↦ heard now rounds n | aborted ↦ now | ended k ↦ now | exited k ↦ now ]

  -- What a lemma on one turn gives: the calls are new ones, and the turn is the supervisor's.
  abbrev Turns : Answers → ℕ → List Event → Outcome → Monitor S → Type 0
  Turns a p events o n =
      Waits o n × ((new : List Event) × (n.events ≡ new ++ events) × Turn a p new (phase o n))

  dispatch-child :
      (r : Round S) (p : ℕ) (m : Monitor S)
      → (answers r m).signal ≡ sigchld
      → m.pid ≡ in_parent p
      → m.need_start ≡ true
      → let (o, n) = dispatch r (in_parent p) m in Turns (answers r m) p m.events o n
  unfolding dispatch handle wait_child child_changed take_signal
  dispatch-child r p m h e n = elim (Bool-cases ((answers r m).code == child_need_terminate)) [
    | inl asks ↦
        let turn : Turn (answers r m) p (waited ∷ []) stopped =
          child_asks_to_stop h (ground (arith, asks)) in
        (ground arith, (waited ∷ [], ground arith, ground (arith, turn)))
    | inr goes_on ↦
        let turn : Turn (answers r m) p (waited ∷ []) vacant =
          child_ends h (ground (arith, goes_on)) in
        (ground arith, (waited ∷ [], ground arith, ground (arith, turn)))
  ]

  dispatch-hang_up :
      (r : Round S) (p : ℕ) (m : Monitor S)
      → (answers r m).signal ≡ sighup
      → m.pid ≡ in_parent p
      → let (o, n) = dispatch r (in_parent p) m in Turns (answers r m) p m.events o n
  unfolding dispatch handle hang_up forward take_signal
  dispatch-hang_up r p m h e = elim (Bool-cases (answers r m).throws) [
    | inl throws ↦
        let turn : Turn (answers r m) p [] killed = reload_throws h throws in
        (ground arith, ([], ground arith, ground (arith, turn)))
    | inr loads ↦
        let turn : Turn (answers r m) p (signalled p sighup ∷ []) (watching p) = reloads h loads in
        (ground arith, (signalled p sighup ∷ [], ground arith, ground (arith, turn)))
  ]

  dispatch-terminate :
      (r : Round S) (p : ℕ) (m : Monitor S)
      → (answers r m).signal ≢ sigchld
      → (answers r m).signal ≢ sighup
      → let (o, n) = dispatch r (in_parent p) m in Turns (answers r m) p m.events o n
  unfolding dispatch handle terminate take_signal
  dispatch-terminate r p m c h =
      let turn : Turn (answers r m) p (signalled p sigterm ∷ []) stopped = terminates c h in
      (ground arith, (signalled p sigterm ∷ [], ground arith, ground (arith, turn)))

  -- Every signal that is taken while a process is watched makes a turn of the supervisor.
  dispatch-Turns :
      (r : Round S) (p : ℕ) (m : Monitor S)
      → m.pid ≡ in_parent p
      → m.need_start ≡ true
      → let (o, n) = dispatch r (in_parent p) m in Turns (answers r m) p m.events o n
  dispatch-Turns r p m e n = elim (Bool-cases ((answers r m).signal == sigchld)) [
    | inl c ↦ dispatch-child r p m (ground (arith, c)) e n
    | inr c ↦ elim (Bool-cases ((answers r m).signal == sighup)) [
      | inl h ↦ dispatch-hang_up r p m (ground (arith, h)) e
      | inr h ↦ dispatch-terminate r p m (ground (arith, c)) (ground (arith, h))
    ]
  ]

  -- A round leads the supervisor from one phase between rounds to the next, or to an end.
  module _ (before : List Answers) (r : Round S) (m : Monitor S) where
    abbrev Next : Outcome → Monitor S → Type 0
    Next o n = Waits o n × Reaches (answers r m ∷ before) n.events (phase o n)

    vacant-Reaches :
        (f : Forked)
        → r.fork ≡ f
        → m.need_start ≡ true
        → Reaches before m.events vacant
        → let (o, n) = step r m in Next o n
    unfolding step start_child
    vacant-Reaches fork_failed e needed h =
        let edge : Edge (answers r m) vacant [] failed = fork_fails e in
        let next = then h edge in ground (arith, e, needed, next)
    vacant-Reaches in_child e needed h =
        let edge : Edge (answers r m) vacant [] child = becomes_child e in
        let next = then h edge in ground (arith, e, needed, next)
    vacant-Reaches (in_parent p) e needed h =
        let n = record (note (spawned p) m) { pid = in_parent p } in
        let (w, (new, events, turn)) = dispatch-Turns r p n refl needed in
        let s : step r m ≡ dispatch r (in_parent p) n = ground (arith, e, needed) in
        rw s (
          w,
          rw events (rw (append_assoc new (spawned p ∷ []) m.events) at (then h (forks e turn))),
        )

    watching-Reaches :
        (p : ℕ)
        → m.pid ≡ in_parent p
        → m.need_start ≡ false
        → Reaches before m.events (watching p)
        → let (o, n) = step r m in Next o n
    unfolding step start_child
    watching-Reaches p e needed h =
        let n = record m { need_start = true } in
        let (w, (new, events, turn)) = dispatch-Turns r p n e refl in
        let s : step r m ≡ dispatch r (in_parent p) n = ground (arith, e, needed) in
        rw s (w, rw events (then h (watches turn)))

  step-Reaches :
      (before : List Answers) (r : Round S) (m : Monitor S)
      → IsWaiting m.need_start m.pid
      → Reaches before m.events (between m.need_start m.pid)
      → let (o, n) = step r m in Next before r m o n
  step-Reaches before r m w h = elim (Bool-cases m.need_start) [
    | inl needed ↦ vacant-Reaches before r m r.fork refl needed (ground (arith, needed))
    | inr needed ↦
        let (p, e) = IsWaiting-cases m.need_start m.pid needed w in
        watching-Reaches before r m p e needed (ground (arith, needed, e))
  ]

  pub run-Reaches :
      (before : List Answers) (rounds : List (Round S)) (m : Monitor S)
      → IsWaiting m.need_start m.pid
      → Reaches before m.events (between m.need_start m.pid)
      → Waits (run rounds m).0 (run rounds m).1
        × Reaches
            (heard before rounds m)
            (run rounds m).1.events
            (phase (run rounds m).0 (run rounds m).1)
  unfolding run
  run-Reaches before [] m w h = (w, h)
  run-Reaches before (r ∷ rounds) m w h =
      let (o, n) = step r m in
      ground (arith, step-Reaches before r m w h, run-Reaches (answers r m ∷ before) rounds n)

  pub monitor_proc-run :
      (answer : SetupCall → Option ℕ) (rounds : List (Round S)) (m : Monitor S)
      → first_failure answer setup_calls ≡ none
      → monitor_proc answer rounds m ≡ run rounds (record m { need_start = true })
  unfolding monitor_proc
  monitor_proc-run answer rounds m none_fails = ground arith

  -- Once the calls that set up the signals succeed, whatever the rounds answer, the calls of
  -- monitor_proc and the way it goes on or ends are those of an abstract supervisor that gets
  -- the same answers. It forks when it watches no process, and otherwise acts on the signal: on
  -- SIGCHLD it waits for the process, stops if the exit code is CHILD_NEED_TERMINATE, and needs
  -- a new process if it is not; on SIGHUP it reloads, and hands SIGHUP on unless an exception
  -- ends the reload; on any other signal it sends SIGTERM and stops.
  pub monitor_proc-Reaches :
      (answer : SetupCall → Option ℕ) (rounds : List (Round S)) (m : Monitor S)
      → first_failure answer setup_calls ≡ none
      → m.events ≡ []
      → let (o, n) = monitor_proc answer rounds m in
        Reaches (heard [] rounds (record m { need_start = true })) n.events (phase o n)
  monitor_proc-Reaches answer rounds m none_fails e =
      rw (monitor_proc-run answer rounds m none_fails)
        (run-Reaches [] rounds (record m { need_start = true }) tt (rw e starts)).1
