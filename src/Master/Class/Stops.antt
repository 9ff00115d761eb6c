-- ===== src/Master/Class/Stops.antt =====
-- SIGTERM ends the Master process, whatever it did before.
use robotd.Common.{
  ℕ, ◌≡◌, ◌≢◌, codes, Bytes, Bool, Option, Option-cases, some, inl, inr, List, [], ◌∷◌, ◌++◌, arith,
}
use robotd.Definitions.{sighup, child_need_terminate}
use robotd.Loader.State.{Loader, Sink}
use robotd.Master.Services.{Slave}
use robotd.Master.Work.{Master, Outcome, running, exited, Round, work_proc}
use robotd.Master.Work as Work
use robotd.Master.Work.Stops.{work_proc-HasStopped}
use robotd.Master.Class.{master_class, Shift, child, construct}

-- The rounds of a shift and one more.
abbrev pub one_more : {S : Type 0} → Shift S → Round S → Shift S
one_more shift r = record shift { rounds = shift.rounds ++ r ∷ [] }

module _ {S : Type 0} (debug : Bool) (demangle : Bytes → Option Bytes) (slaves : List Slave)
    (signo : ℕ) (shift : Shift S) (l : Loader S) (r : Round S) (signal : ℕ)
    (came : r.sigwait ≡ some signal) (other : signal ≢ sighup) where
  abbrev End : Outcome × Master S → Outcome × Master S → Type 0
  End before after =
      (after.0 ≡ exited child_need_terminate)
      × (after.1.services ≡ before.1.services)
      × (after.1.loader ≡ before.1.loader)

  construct-End :
      (sink : Sink)
      → let c = master_class debug demangle in
        let before = construct c slaves signo shift l sink in
        before.0 ≡ running → End before (construct c slaves signo (one_more shift r) l sink)
  unfolding construct master_class
  construct-End sink h =
      let (o, m) = Work.master shift.setrlimit (codes "Master") sink signo l in
      let ends = work_proc-HasStopped r signal came other shift.answer slaves shift.rounds m in
      ground (arith, ends)

  -- A process that still works ends in such a round, and asks not to be started again.
  pub child-End :
      (m : Master S)
      → child (master_class debug demangle) slaves signo shift l ≡ some (running, m)
      → (n : Master S) × (child (master_class debug demangle) slaves signo (one_more shift r) l
          ≡ some (exited child_need_terminate, n))
        × (n.services ≡ m.services)
        × (n.loader ≡ m.loader)
  unfolding child
  child-End m h = elim (Option-cases l.sink) [
    | inl no_sink ↦ absurd (ground (arith, no_sink))
    | inr (sink, has_sink) ↦
        let c = master_class debug demangle in
        (
          (construct c slaves signo (one_more shift r) l sink).1,
          ground (arith, has_sink, construct-End sink),
          ground (arith, has_sink, construct-End sink),
          ground (arith, has_sink, construct-End sink),
        )
  ]
