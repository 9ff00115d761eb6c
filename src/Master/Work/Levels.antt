-- ===== src/Master/Work/Levels.antt =====
-- A reload reaches the slaves.
use robotd.Common.{◌≡◌, refl, ℤ, some, List, [], ◌∷◌, arith, All}
use robotd.Definitions.{sighup}
use robotd.Loader.Level.{Level}
use robotd.Loader.Config.{returned}
use robotd.Master.Services.{Service, set_level, update_all_loggers}
use robotd.Master.Work.{Master, running, Round, reload, react, take_signal, step}

-- A slave logs at the level `l`.
pub record LogsAt (l : Level) (s : Service) : Type 0 where
  pub level : s.lev ≡ l
  pub logger_level : s.log_level ≡ l

update_all_loggers-LogsAt :
    (l : Level) (services : List Service) → All (LogsAt l) (update_all_loggers l services)
unfolding update_all_loggers set_level
update_all_loggers-LogsAt l [] = tt
update_all_loggers-LogsAt l (s ∷ services) =
    (record { level = refl; logger_level = refl }, update_all_loggers-LogsAt l services)

module _ {S : Type 0} (r : Round S) (m : Master S) where
  step-services :
      (n : ℤ)
      → r.sigwait ≡ some sighup
      → (r.load m.loader).0 ≡ returned n
      → ((step r m).0 ≡ running)
        × ((step r m).1.loader ≡ (r.load m.loader).1)
        × ((step r m).1.services ≡ update_all_loggers (r.load m.loader).1.lev m.services)
  unfolding step react reload take_signal
  step-services n s e = ground (arith, s, e)

  -- A reload that does not throw gives every slave the level that it left.
  pub step-LogsAt :
      (n : ℤ)
      → r.sigwait ≡ some sighup
      → (r.load m.loader).0 ≡ returned n
      → ((step r m).0 ≡ running)
        × ((step r m).1.loader ≡ (r.load m.loader).1)
        × All (LogsAt (r.load m.loader).1.lev) (step r m).1.services
  step-LogsAt n s e =
      let (goes_on, loaded, services) = step-services n s e in
      (goes_on, loaded, rw services (update_all_loggers-LogsAt (r.load m.loader).1.lev m.services))
