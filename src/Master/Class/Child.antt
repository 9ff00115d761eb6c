-- ===== src/Master/Class/Child.antt =====
-- How the Master process ends, and what the monitor makes of each end.
use robotd.Common.{
  Option-cases, ℕ, ◌≡◌, ◌⊎◌, inl, inr, codes, Bytes, Bool, true, Option, some, List, arith, All,
}
use robotd.Definitions.{child_need_terminate, child_need_work, sigchld}
use robotd.Loader.State.{Loader, Sink}
use robotd.Daemon.Monitor as Monitor
use robotd.Daemon.Monitor.{Monitor, in_parent}
use robotd.Daemon.Monitor.Ends.{step-ended}
use robotd.Daemon.Monitor.Restarts.{step-crash}
use robotd.Master.Services.{Slave}
use robotd.Master.Work.{
  Master, Outcome, running, aborted, returns, exited, Call, Round, Rlimit, work_proc,
}
use robotd.Master.Work as Work
use robotd.Master.Work.Fate.{IsTcp, wait_status, work_proc-EndsAs}
use robotd.Master.Class.{master_class, Shift, child, construct}

-- The two numbers that the monitor tells apart.
abbrev IsStatus : Outcome → Type 0
IsStatus running = Unit
IsStatus aborted = Unit
IsStatus (returns n) = ⊥
IsStatus (exited n) = (n ≡ child_need_terminate) ⊎ (n ≡ child_need_work)

module _ {S : Type 0} (debug : Bool) (demangle : Bytes → Option Bytes) where
  construct-IsStatus :
      (slaves : List Slave) (signo : ℕ) (shift : Shift S) (l : Loader S) (sink : Sink)
      → All (IsTcp debug) slaves
      → IsStatus (construct (master_class debug demangle) slaves signo shift l sink).0
  unfolding construct master_class Work.master
  construct-IsStatus slaves signo shift l sink h =
      let (o, m) = Work.master shift.setrlimit (codes "Master") sink signo l in
      let (p, n) = work_proc shift.answer slaves shift.rounds m in
      ground (arith, work_proc-EndsAs debug shift.answer slaves shift.rounds m h)

  child-IsStatus :
      (slaves : List Slave) (signo : ℕ) (shift : Shift S) (l : Loader S) (n : ℕ) (m : Master S)
      → All (IsTcp debug) slaves
      → child (master_class debug demangle) slaves signo shift l ≡ some (exited n, m)
      → (n ≡ child_need_terminate) ⊎ (n ≡ child_need_work)
  unfolding child
  child-IsStatus slaves signo shift l n m h e = elim (Option-cases l.sink) [
    | inl no_sink ↦ ground (arith, no_sink)
    | inr (sink, has_sink) ↦
        ground (arith, has_sink, construct-IsStatus slaves signo shift l sink h)
  ]

  -- When the Master process, with TCP servers for slaves, ends by exit, and the monitor, which
  -- started it in this round, learns of that by SIGCHLD and wait, then either the process asked
  -- for the end and the monitor ends with CHILD_NEED_TERMINATE, or its status is
  -- CHILD_NEED_WORK and the monitor goes on and needs a new child.
  pub child-step :
      (slaves : List Slave) (signo : ℕ) (shift : Shift S) (l : Loader S) (n : ℕ) (m : Master S)
      (number : ℕ) (r : Monitor.Round S) (monitor : Monitor S)
      → All (IsTcp debug) slaves
      → child (master_class debug demangle) slaves signo shift l ≡ some (exited n, m)
      → monitor.need_start ≡ true
      → r.fork ≡ in_parent number
      → r.sigwaitinfo ≡ some sigchld
      → r.wait ≡ some (wait_status n)
      → ((n ≡ child_need_terminate)
          × ((Monitor.step r monitor).0 ≡ Monitor.ended child_need_terminate))
        ⊎ ((n ≡ child_need_work)
            × ((Monitor.step r monitor).0 ≡ Monitor.running)
            × ((Monitor.step r monitor).1.need_start ≡ true))
  child-step slaves signo shift l n m number r monitor h e need f s w =
      elim (child-IsStatus slaves signo shift l n m h e) [
        | inl stop ↦
            inl (stop, step-ended r monitor number (wait_status n) need f s w (omega (arith, stop)))
        | inr again ↦
            let crash =
              step-crash r monitor
                (record {
                  child = number;
                  started = f;
                  signal = s;
                  code = wait_status n;
                  reaped = w;
                  restarts = λ k. omega (arith, again, k);
                })
                need in
            inr (again, crash.0, crash.1)
      ]
