-- ===== src/Master/Services.antt =====
-- The slaves of the Master process: the base class of slaves/include/service.hpp, and the functions of
-- daemon/master_impl.hpp that make and update them.
use robotd.Common.{ℕ, zero, suc, ◌++◌, Bytes, Option, List, [], ◌∷◌}
use robotd.Loader.Level.{Level}
use robotd.Loader.State.{Sink}
use robotd.TcpServer.Server.{Ended, listening, throws, exits}

-- The level of the class and of its logger, and the sink of that logger.
pub record Service : Type 0 where
  pub tag : Bytes
  pub lev : Level
  pub log_sink : Option Sink
  pub log_level : Level

-- The constructor of the base class.
abbrev pub service : Bytes → Level → Option Sink → Service
service tag l sink = record { tag = tag; lev = l; log_sink = sink; log_level = l }

unfoldable pub set_level : Level → Service → Service
set_level l s = record s { lev = l; log_level = l }

-- A slave class: its tag, and how its constructor ends.
pub record Slave : Type 0 where
  pub tag : Bytes
  pub construct : Ended

-- `register_all_services`, slave by slave; a constructor may end the process.
unfoldable pub register_all_services :
    Level → Option Sink → List Slave → List Service → Ended × List Service
register_all_services l sink [] done = (listening, done)
register_all_services l sink (slave ∷ slaves) done =
    let rest = register_all_services l sink slaves (done ++ service slave.tag l sink ∷ []) in
    elim slave.construct [ listening ↦ rest | throws ↦ (throws, done) | exits n ↦ (exits n, done) ]

-- `update_all_loggers`
unfoldable pub update_all_loggers : Level → List Service → List Service
update_all_loggers l [] = []
update_all_loggers l (s ∷ services) = set_level l s ∷ update_all_loggers l services

-- `run_all_services`: how many threads there are, after as many rounds as `thread_count` says. Making a
-- thread is taken to succeed.
unfoldable pub run_all_services : ℕ → ℕ → ℕ
run_all_services zero threads = threads
run_all_services (suc count) threads = run_all_services count (suc threads)
