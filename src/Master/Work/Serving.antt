-- ===== src/Master/Work/Serving.antt =====
-- The slaves log at the level of the loader, and on the sink that they were made with.
use robotd.Common.{ℕ, ◌≡◌, ◌≢◌, refl, ◌++◌, Option, List, [], ◌∷◌, arith, All, All-append}
use robotd.Loader.Level.{Level}
use robotd.Loader.State.{Sink}
use robotd.Master.Services.{
  Service, Slave, service, set_level, register_all_services, update_all_loggers, run_all_services,
}
use robotd.Master.Work.{
  Call, Master, Outcome, running, aborted, returns, exited, Round, reload, take_signal, react, step,
  loop, serve, work_proc,
}

-- The levels of a slave are `l`, and its logger has the sink `sink`.
pub record LogsOn (l : Level) (sink : Option Sink) (s : Service) : Type 0 where
  pub level : s.lev ≡ l
  pub logger_level : s.log_level ≡ l
  pub logger_sink : s.log_sink ≡ sink

register_all_services-LogsOn :
    (l : Level) (sink : Option Sink) (slaves : List Slave) (done : List Service)
    → All (LogsOn l sink) done
    → All (LogsOn l sink) (register_all_services l sink slaves done).1
unfolding register_all_services
register_all_services-LogsOn l sink [] done h = h
register_all_services-LogsOn l sink (slave ∷ slaves) done h = ground (
  arith,
  h,
  register_all_services-LogsOn l sink slaves (done ++ service slave.tag l sink ∷ []) (
      All-append (LogsOn l sink) done _ h
        (record { level = refl; logger_level = refl; logger_sink = refl }, tt)),
)

update_all_loggers-LogsOn :
    (l k : Level) (sink : Option Sink) (services : List Service)
    → All (LogsOn k sink) services
    → All (LogsOn l sink) (update_all_loggers l services)
unfolding update_all_loggers set_level
update_all_loggers-LogsOn l k sink [] h = tt
update_all_loggers-LogsOn l k sink (s ∷ services) (p, h) = (
  record { level = refl; logger_level = refl; logger_sink = p.logger_sink },
  update_all_loggers-LogsOn l k sink services h,
)

module _ {S : Type 0} (sink : Option Sink) where
  abbrev pub IsServing : Master S → Type 0
  IsServing m = All (LogsOn m.loader.lev sink) m.services

  abbrev Serves : Outcome → Master S → Type 0
  Serves aborted m = Unit
  Serves running m = IsServing m
  Serves (returns n) m = IsServing m
  Serves (exited n) m = IsServing m

  step-Serves : (r : Round S) (m : Master S) → IsServing m → Serves (step r m).0 (step r m).1
  unfolding step react reload take_signal
  step-Serves r m h =
      ground
        (arith, update_all_loggers-LogsOn (r.load m.loader).1.lev m.loader.lev sink m.services h)

  loop-Serves :
      (rounds : List (Round S)) (m : Master S)
      → IsServing m
      → Serves (loop rounds m).0 (loop rounds m).1
  unfolding loop
  loop-Serves [] m h = h
  loop-Serves (r ∷ rounds) m h =
      let (o, n) = step r m in ground (arith, step-Serves r m h, loop-Serves rounds n)

module _ {S : Type 0} where
  serve-Serves :
      (slaves : List Slave) (rounds : List (Round S)) (m : Master S)
      → Serves m.loader.sink (serve slaves rounds m).0 (serve slaves rounds m).1
  unfolding serve
  serve-Serves slaves rounds m =
      let (e, services) = register_all_services m.loader.lev m.loader.sink slaves [] in
      ground (
        arith,
        register_all_services-LogsOn m.loader.lev m.loader.sink slaves [] tt,
        loop-Serves m.loader.sink rounds
            (record m { services = services; threads = run_all_services m.loader.thread_count 0 }),
      )

  -- Unless an exception ends the Master process, which starts without services, at every point
  -- of its work each slave has the level of the loader, whatever the reloads returned, and logs
  -- on the sink that the loader had at the start, not on one that a reload made.
  pub work_proc-IsServing :
      (answer : Call → Option ℕ) (slaves : List Slave) (rounds : List (Round S)) (m : Master S)
      → m.services ≡ []
      → (work_proc answer slaves rounds m).0 ≢ aborted
      → IsServing m.loader.sink (work_proc answer slaves rounds m).1
  unfolding work_proc
  work_proc-IsServing answer slaves rounds m none_yet h =
      ground (arith, serve-Serves slaves rounds m)
