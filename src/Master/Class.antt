-- ===== src/Master/Class.antt =====
-- The class robot::master of daemon/master.hpp, and the process that daemon/daemon_impl.hpp runs it in.
pub mod Child
pub mod Stops
use robotd.Common.{ℕ, ◌%◌, Bytes, codes, Bool, Option, none, some, List}
use robotd.Loader.Level.{Level}
use robotd.Loader.State.{Loader, Sink}
use robotd.TcpServer.Server.{Ended}
use robotd.Master.Services as Services
use robotd.Master.Services.{Service, Slave}
use robotd.Master.Backtrace as Backtrace
use robotd.Master.Backtrace.{Fault, Death, Entry}
use robotd.Master.Work as Work
use robotd.Master.Work.{Call, Rlimit, Master, Outcome, running, aborted, returns, exited, Round}

-- The operations. A fault calls `self_debug_wrapper`, whose argument is the static pointer `me`. An object
-- cannot be made without a name, nor be copied, moved or assigned.
pub record MasterClass (S : Type 0) : Type 0 where
  pub set_fd_limit : ℕ → Call
  pub reload_config : Round S → Master S → Outcome × Master S
  pub self_debug_wrapper : Option (Master S) → Fault → Death × List Entry
  pub self_debug : Fault → Death × List Entry
  pub register_all_services : Level → Option Sink → List Slave → List Service → Ended × List Service
  pub run_all_services : ℕ → ℕ → ℕ
  pub update_all_loggers : Level → List Service → List Service
  pub master : (Rlimit → Option ℕ) → Bytes → Sink → ℕ → Loader S → Outcome × Master S
  pub work_proc : (Call → Option ℕ) → List Slave → List (Round S) → Master S → Outcome × Master S

unfoldable pub master_class : {S : Type 0} → Bool → (Bytes → Option Bytes) → MasterClass S
master_class debug demangle = record {
  set_fd_limit = Work.set_fd_limit;
  reload_config = Work.reload;
  self_debug_wrapper = Backtrace.self_debug_wrapper debug demangle;
  self_debug = Backtrace.self_debug debug demangle;
  register_all_services = Services.register_all_services;
  run_all_services = Services.run_all_services;
  update_all_loggers = Services.update_all_loggers;
  master = Work.master;
  work_proc = Work.work_proc;
}

-- What the new process meets: the answer of the constructor's `setrlimit`, those of the calls of
-- `work_proc`, and the rounds of its loop.
pub record Shift (S : Type 0) : Type 0 where
  pub setrlimit : Rlimit → Option ℕ
  pub answer : Call → Option ℕ
  pub rounds : List (Round S)

module _ {S : Type 0} (c : MasterClass S) where
  -- `exit(status)` behind `work_proc`.
  abbrev leave : Outcome × Master S → Outcome × Master S
  leave (running, m) = (running, m)
  leave (aborted, m) = (aborted, m)
  leave (returns n, m) = (exited n, m)
  leave (exited n, m) = (exited n, m)

  construct : List Slave → ℕ → Shift S → Loader S → Sink → Outcome × Master S
  construct slaves signo shift l sink =
      let (o, m) = c.master shift.setrlimit (codes "Master") sink signo l in
      let worked = leave (c.work_proc shift.answer slaves shift.rounds m) in
      elim o [
        | running ↦ worked
        | aborted ↦ (aborted, m)
        | returns n ↦ (exited n, m)
        | exited n ↦ (exited n, m)
      ]

  -- The branch of `monitor_proc` in the new process. The daemon has a sink; without one the constructor
  -- would log through a null pointer. `none` is that end.
  unfoldable pub child : List Slave → ℕ → Shift S → Loader S → Option (Outcome × Master S)
  unfolding construct
  child slaves signo shift l = elim l.sink [
    | none ↦ none
    | some sink ↦ some (construct slaves signo shift l sink)
  ]
