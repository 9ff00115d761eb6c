-- ===== src/Master/Work/Fate.antt =====
-- How the Master process ends, and what the monitor makes of it.
use robotd.Common.{
  ℕ, ◌*◌, ◌%◌, ◌≡◌, ◌≢◌, Bool, true, false, Option, some, List, [], ◌∷◌, ◌++◌, arith, All,
  if◌then◌else◌,
}
use robotd.Definitions.{child_need_terminate, child_need_work, sigchld}
use robotd.Loader.Level.{Level}
use robotd.Loader.State.{Sink}
use robotd.TcpServer.Server.{Ended, listening, throws, exits, Calls, tcp_server}
use robotd.Daemon.Monitor as Monitor
use robotd.Daemon.Monitor.{Monitor, in_parent, exit_code}
use robotd.Daemon.Monitor.Ends.{step-ended}
use robotd.Daemon.Monitor.Restarts.{step-crash}
use robotd.Master.Services.{Service, Slave, service, register_all_services, run_all_services}
use robotd.Master.Work.{
  Call, Master, Outcome, running, aborted, returns, exited, Round, reload, take_signal, react, step,
  loop, serve, work_proc,
}

-- The status that `wait` gives for a process that ends by `exit(n)`.
abbrev pub wait_status : ℕ → ℕ
wait_status n = (n % 256) * 256

-- A slave whose constructor is that of the TCP server.
abbrev pub IsTcp : Bool → Slave → Type 0
IsTcp debug slave = (a : Calls) × (slave.construct ≡ tcp_server debug a)

abbrev pub given_up : Bool → ℕ
given_up debug = if debug then child_need_terminate else child_need_work

abbrev pub EndsAs : Bool → Outcome → Type 0
EndsAs debug running = Unit
EndsAs debug aborted = Unit
EndsAs debug (returns n) = n ≡ child_need_terminate
EndsAs debug (exited n) = n ≡ given_up debug

abbrev Registers : Bool → Ended → Type 0
Registers debug listening = Unit
Registers debug throws = Unit
Registers debug (exits n) = n ≡ given_up debug

tcp_server-Registers : (debug : Bool) (a : Calls) → Registers debug (tcp_server debug a)
unfolding tcp_server
tcp_server-Registers debug a = ground arith

register_all_services-Registers :
    (debug : Bool) (l : Level) (sink : Option Sink) (slaves : List Slave) (done : List Service)
    → All (IsTcp debug) slaves
    → Registers debug (register_all_services l sink slaves done).0
unfolding register_all_services
register_all_services-Registers debug l sink [] done h = tt
register_all_services-Registers debug l sink (slave ∷ slaves) done ((a, e), h) = ground (
  arith,
  e,
  tcp_server-Registers debug a,
  register_all_services-Registers debug l sink slaves (done ++ service slave.tag l sink ∷ []) h,
)

module _ {S : Type 0} (debug : Bool) where
  loop-EndsAs : (rounds : List (Round S)) (m : Master S) → EndsAs debug (loop rounds m).0
  unfolding loop step react reload take_signal
  loop-EndsAs [] m = tt
  loop-EndsAs (r ∷ rounds) m = let (o, n) = step r m in ground (arith, loop-EndsAs rounds n)

  serve-EndsAs :
      (slaves : List Slave) (rounds : List (Round S)) (m : Master S)
      → All (IsTcp debug) slaves
      → EndsAs debug (serve slaves rounds m).0
  unfolding serve
  serve-EndsAs slaves rounds m h =
      let (e, services) = register_all_services m.loader.lev m.loader.sink slaves [] in
      ground (
        arith,
        register_all_services-Registers debug m.loader.lev m.loader.sink slaves [] h,
        loop-EndsAs rounds
            (record m { services = services; threads = run_all_services m.loader.thread_count 0 }),
      )

  pub work_proc-EndsAs :
      (answer : Call → Option ℕ) (slaves : List Slave) (rounds : List (Round S)) (m : Master S)
      → All (IsTcp debug) slaves
      → EndsAs debug (work_proc answer slaves rounds m).0
  unfolding work_proc
  work_proc-EndsAs answer slaves rounds m h = ground (arith, serve-EndsAs slaves rounds m h)

exit_code-child_need_work :
    (n : ℕ) → n ≡ child_need_work → exit_code (wait_status n) ≢ child_need_terminate
exit_code-child_need_work n e h = omega (arith, e, h)

abbrev ReturnsAs : Outcome → Type 0
ReturnsAs running = Unit
ReturnsAs aborted = Unit
ReturnsAs (returns n) = n ≡ child_need_terminate
ReturnsAs (exited n) = Unit

module _ {S : Type 0} where
  serve-ReturnsAs :
      (slaves : List Slave) (rounds : List (Round S)) (m : Master S)
      → ReturnsAs (serve slaves rounds m).0
  unfolding serve
  serve-ReturnsAs slaves rounds m =
      let (e, services) = register_all_services m.loader.lev m.loader.sink slaves [] in
      ground (
        arith,
        loop-EndsAs false rounds
            (record m { services = services; threads = run_all_services m.loader.thread_count 0 }),
      )

  work_proc-ReturnsAs :
      (answer : Call → Option ℕ) (slaves : List Slave) (rounds : List (Round S)) (m : Master S)
      → ReturnsAs (work_proc answer slaves rounds m).0
  unfolding work_proc
  work_proc-ReturnsAs answer slaves rounds m = ground (arith, serve-ReturnsAs slaves rounds m)

  -- When work_proc returns, whether a call failed or by a signal other than SIGHUP, the monitor,
  -- which started the process in this round and learns of its end by SIGCHLD and wait, ends with
  -- CHILD_NEED_TERMINATE.
  pub work_proc-ended :
      (answer : Call → Option ℕ) (slaves : List Slave) (rounds : List (Round S)) (m : Master S)
      (n child : ℕ) (r : Monitor.Round S) (monitor : Monitor S)
      → (work_proc answer slaves rounds m).0 ≡ returns n
      → monitor.need_start ≡ true
      → r.fork ≡ in_parent child
      → r.sigwaitinfo ≡ some sigchld
      → r.wait ≡ some (wait_status n)
      → (Monitor.step r monitor).0 ≡ Monitor.ended child_need_terminate
  work_proc-ended answer slaves rounds m n child r monitor e need f s w =
      step-ended r monitor child (wait_status n) need f s w
        (ground (arith, e, work_proc-ReturnsAs answer slaves rounds m))

  -- When the Master process, built without DEBUG and with TCP servers for slaves, exits from the
  -- constructor of a slave, the monitor, which started it in this round and learns of its end by
  -- SIGCHLD and wait, goes on and needs a new child.
  pub work_proc-restarted :
      (answer : Call → Option ℕ) (slaves : List Slave) (rounds : List (Round S)) (m : Master S)
      (n child : ℕ) (r : Monitor.Round S) (monitor : Monitor S)
      → All (IsTcp false) slaves
      → (work_proc answer slaves rounds m).0 ≡ exited n
      → monitor.need_start ≡ true
      → r.fork ≡ in_parent child
      → r.sigwaitinfo ≡ some sigchld
      → r.wait ≡ some (wait_status n)
      → ((Monitor.step r monitor).0 ≡ Monitor.running)
        × ((Monitor.step r monitor).1.need_start ≡ true)
  work_proc-restarted answer slaves rounds m n child r monitor h e need f s w =
      let crash =
        step-crash r monitor
          (record {
            child = child;
            started = f;
            signal = s;
            code = wait_status n;
            reaped = w;
            restarts =
                exit_code-child_need_work n
                  (ground (arith, e, work_proc-EndsAs false answer slaves rounds m h));
          })
          need in
      (crash.0, crash.1)
