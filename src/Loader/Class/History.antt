-- ===== src/Loader/Class/History.antt =====
-- The static members after any number of loads.
use robotd.Common.{Bytes, List, [], ◌∷◌, arith}
use robotd.Loader.Settings.{Env}
use robotd.Loader.State.{Loader}
use robotd.Loader.Config.{SlaveLoader}
use robotd.Loader.Config.Valid.{IsValid, daemon_load_config-IsValid}
use robotd.Loader.Class.{LoaderClass, loader, first_state}

module _ {S : Type 0} (tag : Bytes) (first : SlaveLoader S) (rest : List (SlaveLoader S)) where
  -- The loads in turn, each with the surroundings and the file name it finds.
  unfoldable pub loads : List (Env × Bytes) → Loader S → Loader S
  loads [] s = s
  loads ((env, filename) ∷ later) s =
      let c : LoaderClass S = loader env tag in
      loads later (c.daemon_load_config first rest filename s).1

  loads-IsValid :
      (history : List (Env × Bytes)) (s : Loader S) → IsValid s → IsValid (loads history s)
  unfolding loads
  loads-IsValid [] s v = v
  loads-IsValid ((env, filename) ∷ later) s v =
      let c : LoaderClass S = loader env tag in
      loads-IsValid later (c.daemon_load_config first rest filename s).1
        (daemon_load_config-IsValid env tag first rest filename s v)

  first_state-IsValid : (slaves : S) → IsValid (first_state slaves)
  first_state-IsValid slaves = record {
    some_thread = omega arith;
    thread_limit = omega arith;
    level_on = λ h. cc;
    logger_on = tt;
    logger_there = tt;
  }

  -- From the values that the static members have at first, after any loads, each with a file
  -- and surroundings of its own and whether it succeeds or fails, the thread count lies in 1 to
  -- 65534, no level is off, and there is a logger once errors go to the log file.
  pub loads-first_state :
      (history : List (Env × Bytes)) (slaves : S) → IsValid (loads history (first_state slaves))
  loads-first_state history slaves =
      loads-IsValid history (first_state slaves) (first_state-IsValid slaves)
