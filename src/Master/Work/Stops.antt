-- ===== src/Master/Work/Stops.antt =====
-- A signal other than SIGHUP ends the loop of the Master process, whatever went before.
use robotd.Common.{ℕ, ◌≡◌, ◌≢◌, refl, Option, some, List, [], ◌∷◌, ◌++◌, arith}
use robotd.Definitions.{sighup, child_need_terminate}
use robotd.Master.Services.{Slave, register_all_services, run_all_services}
use robotd.Master.Work.{
  Call, Master, Outcome, running, returns, Round, react, take_signal, step, say, stopped, loop,
  serve, work_proc,
}

-- The state that such a round leaves.
pub record HasStopped {S : Type 0} (o : Outcome) (m n : Master S) : Type 0 where
  pub asks : o ≡ returns child_need_terminate
  pub same_services : n.services ≡ m.services
  pub same_loader : n.loader ≡ m.loader

module _ {S : Type 0} (r : Round S) (signal : ℕ) (came : r.sigwait ≡ some signal)
    (other : signal ≢ sighup) where
  loop_last :
      (m : Master S)
      → loop (r ∷ []) m ≡ (returns child_need_terminate, say stopped (record m { signo = signal }))
  unfolding loop step react take_signal
  loop_last m = ground (arith, came, other)

  loop-append :
      (rounds : List (Round S)) (m : Master S)
      → (loop rounds m).0 ≡ running
      → loop (rounds ++ r ∷ []) m ≡ loop (r ∷ []) (loop rounds m).1
  unfolding loop
  loop-append [] m h = refl
  loop-append (first ∷ rounds) m h =
      let (o, n) = step first m in ground (arith, loop-append rounds n)

  serve-append :
      (slaves : List Slave) (rounds : List (Round S)) (m : Master S)
      → (serve slaves rounds m).0 ≡ running
      → serve slaves (rounds ++ r ∷ []) m ≡ loop (r ∷ []) (serve slaves rounds m).1
  unfolding serve
  serve-append slaves rounds m h =
      let (e, services) = register_all_services m.loader.lev m.loader.sink slaves [] in
      let n = record m {
        services = services;
        threads = run_all_services m.loader.thread_count 0;
      } in
      ground (arith, loop-append rounds n)

  work_proc-append :
      (answer : Call → Option ℕ) (slaves : List Slave) (rounds : List (Round S)) (m : Master S)
      → (work_proc answer slaves rounds m).0 ≡ running
      → work_proc answer slaves (rounds ++ r ∷ []) m
        ≡ loop (r ∷ []) (work_proc answer slaves rounds m).1
  unfolding work_proc
  work_proc-append answer slaves rounds m h = ground (arith, serve-append slaves rounds m)

  -- The Master process that still works ends in such a round and asks not to be started again.
  pub work_proc-HasStopped :
      (answer : Call → Option ℕ) (slaves : List Slave) (rounds : List (Round S)) (m : Master S)
      → (work_proc answer slaves rounds m).0 ≡ running
      → let (o, n) = work_proc answer slaves (rounds ++ r ∷ []) m in
        HasStopped o (work_proc answer slaves rounds m).1 n
  work_proc-HasStopped answer slaves rounds m h =
      rw (work_proc-append answer slaves rounds m h, loop_last)
        (record { asks = refl; same_services = refl; same_loader = refl })
