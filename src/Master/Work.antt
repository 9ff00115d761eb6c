-- ===== src/Master/Work.antt =====
-- The constructor and `work_proc` of daemon/master_impl.hpp.
pub mod Serving
pub mod Levels
pub mod Fate
pub mod Stops
use robotd.Common.{
  ℕ, ◌%◌, ◌^◌, ◌++◌, Bytes, codes, ℤ, is_nonzero, Bool, true, false, Option, none, some, List, [],
  ◌∷◌, ◌==◌, if◌then◌else◌,
}
use robotd.Definitions.{
  child_need_terminate, child_need_work, fd_limit, sighup, sigterm, sigfpe, sigill, sigsegv, sigbus,
}
use robotd.Loader.State.{Loader, Logger, Sink}
use robotd.Loader.Config.{Loaded, returned, thrown}
use robotd.Daemon.Monitor.{first_failure}
use robotd.TcpServer.Server.{Ended, listening, throws, exits}
use robotd.Master.Services.{
  Service, Slave, register_all_services, update_all_loggers, run_all_services,
}

-- `struct rlimit`
pub record Rlimit : Type 0 where
  pub rlim_cur : ℕ
  pub rlim_max : ℕ

-- The calls that prepare the signals, and `setrlimit` for the open files.
pub data Call : Type 0 where
  empty_sa_mask sigemptyset sigprocmask : Call
  sigaction sigaddset : ℕ → Call
  setrlimit_nofile : Rlimit → Call

-- The call that `set_fd_limit` returns the answer of; its parameter has the type uint16_t.
abbrev pub set_fd_limit : ℕ → Call
set_fd_limit max_fd =
    setrlimit_nofile (record { rlim_cur = max_fd % 2 ^ 16; rlim_max = max_fd % 2 ^ 16 })

abbrev pub calls : List Call
calls =
    empty_sa_mask
    ∷ sigaction sigfpe
    ∷ sigaction sigill
    ∷ sigaction sigsegv
    ∷ sigaction sigbus
    ∷ sigemptyset
    ∷ sigaddset sighup
    ∷ sigaddset sigterm
    ∷ sigprocmask
    ∷ set_fd_limit fd_limit
    ∷ []

pub data Message : Type 0 where
  run stopped reload_failed reload_ok rlimit_failed : Message
  call_failed : Call → Message

pub record Master (S : Type 0) : Type 0 where
  pub loader : Loader S
  pub services : List Service
  pub threads : ℕ
  -- the variable `signo`
  pub signo : ℕ
  pub output : List Message

-- A process goes on, a function returns a number, or the process ends by `exit` or an exception.
pub data Outcome : Type 0 where
  running aborted : Outcome
  returns : ℕ → Outcome
  exited : ℕ → Outcome

-- One round of the loop: `sigwait`, which leaves `signo` as it was if it fails, and what loading the
-- configuration gives.
pub record Round (S : Type 0) : Type 0 where
  pub sigwait : Option ℕ
  pub load : Loader S → Loaded × Loader S

module _ {S : Type 0} where
  abbrev say : Message → Master S → Master S
  say message m = record m { output = message ∷ m.output }

  -- The constructor: its logger and the limit of the stack, for which `setrlimit` answers. `sink` is what the static member `sink`
  -- points to; the daemon starts this process only after a load that made it.
  unfoldable pub master : (Rlimit → Option ℕ) → Bytes → Sink → ℕ → Loader S → Outcome × Master S
  master setrlimit name sink signo s =
      let m : Master S = record {
        loader = record s {
          sink = some sink;
          log = some (record { tag = name ++ codes "_logger"; sink = sink; level = s.lev });
        };
        services = [];
        threads = 0;
        signo = signo;
        output = run ∷ [];
      } in
      elim (setrlimit (record { rlim_cur = s.ramsize; rlim_max = s.ramsize })) [
        | none ↦ (running, m)
        | some e ↦ (exited child_need_work, say rlimit_failed m)
      ]

  -- `reload_config`, with the message of its caller. Every slave gets the level, whatever the load
  -- returned.
  unfoldable pub reload : Round S → Master S → Outcome × Master S
  reload r m =
      let (loaded, t) = r.load m.loader in
      elim loaded [
        | thrown ↦ (aborted, record m { loader = t })
        | returned n ↦ (
          running,
          say (if is_nonzero n then reload_failed else reload_ok)
              (record m { loader = t; services = update_all_loggers t.lev m.services }),
        )
      ]

  take_signal : Option ℕ → Master S → Master S
  take_signal none m = m
  take_signal (some signal) m = record m { signo = signal }

  react : Round S → Master S → Outcome × Master S
  react r m =
      if m.signo == sighup then reload r m else (returns child_need_terminate, say stopped m)

  -- One round of the loop.
  unfoldable pub step : Round S → Master S → Outcome × Master S
  unfolding take_signal react
  step r m = react r (take_signal r.sigwait m)

  -- The loop, for as many rounds as there are.
  unfoldable pub loop : List (Round S) → Master S → Outcome × Master S
  loop [] m = (running, m)
  loop (r ∷ rounds) m =
      let (o, n) = step r m in
      let later = loop rounds n in
      elim o [
        | running ↦ later
        | aborted ↦ (aborted, n)
        | returns k ↦ (returns k, n)
        | exited k ↦ (exited k, n)
      ]

  -- The slaves, the threads and the loop.
  serve : List Slave → List (Round S) → Master S → Outcome × Master S
  serve slaves rounds m =
      let (e, services) = register_all_services m.loader.lev m.loader.sink slaves [] in
      let n = record m { services = services } in
      elim e [
        | throws ↦ (aborted, n)
        | exits k ↦ (exited k, n)
        | listening ↦ loop rounds (record n { threads = run_all_services n.loader.thread_count 0 })
      ]

  unfoldable pub work_proc :
      (Call → Option ℕ) → List Slave → List (Round S) → Master S → Outcome × Master S
  unfolding serve
  work_proc answer slaves rounds m = elim (first_failure answer calls) [
    | some c ↦ (returns child_need_terminate, say (call_failed c) m)
    | none ↦ serve slaves rounds m
  ]
