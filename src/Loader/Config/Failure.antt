-- ===== src/Loader/Config/Failure.antt =====
-- What a load does that an option of the section `Daemon` stops.
use robotd.Common.{ℕ, ◌≡◌, refl, Bytes, Bool, List, arith}
use robotd.Loader.Size.{failure}
use robotd.Loader.Settings.{Section, Env}
use robotd.Loader.State.{Loader, M, Flow, next, return, abort, ◌>>=◌, continue}
use robotd.Loader.Config.{
  SlaveLoader, load_thread_count, load_log_name, load_level, load_log_size, load_ram_size, announce,
  load_section,
}

module _ {S : Type 0} where
  -- What no option changes before the logger is made. (The thread count, the level and the memory
  -- limit are changed one by one.)
  pub record IsUntouched (s t : Loader S) : Type 0 where
    pub same_file : t.log_to_file ≡ s.log_to_file
    pub same_log : t.log ≡ s.log
    pub same_sink : t.sink ≡ s.sink
    pub same_slaves : t.slaves ≡ s.slaves

  -- An early return hands back the failure number of the first state.
  abbrev pub Refused : {A : Type 0} → Loader S → Flow A → Loader S → Type 0
  Refused s (return n) t = IsUntouched s t × (n ≡ failure s.log_to_file)
  Refused s (next a) t = Unit
  Refused s abort t = Unit

  abbrev Stays : {A : Type 0} → Loader S → Flow A → Loader S → Type 0
  Stays s (return n) t = IsUntouched s t × (n ≡ failure s.log_to_file)
  Stays s (next a) t = IsUntouched s t
  Stays s abort t = Unit

  -- An action that changes nothing of this, or refuses.
  record IsCareful {A : Type 0} (s : Loader S) (m : M S A) : Type 0 where
    stays : (t : Loader S) → IsUntouched s t → Stays s (m t).0 (m t).1

  record Refuses {A : Type 0} (s : Loader S) (m : M S A) : Type 0 where
    refuses : (t : Loader S) → IsUntouched s t → Refused s (m t).0 (m t).1

  module _ {A B : Type 0} {s : Loader S} where
    continue-Refuses :
        (r : Flow A) (f : A → M S B) (t : Loader S)
        → Stays s r t
        → ((a : A) → Refuses s (f a))
        → Refused s (continue r f t).0 (continue r f t).1
    continue-Refuses (next a) f t h k = (k a).refuses t h
    continue-Refuses (return n) f t h k = h
    continue-Refuses abort f t h k = tt

    bind-Refuses :
        (m : M S A) (f : A → M S B)
        → IsCareful s m
        → ((a : A) → Refuses s (f a))
        → Refuses s (m >>= f)
    bind-Refuses m f hm hf = record {
      refuses = λ t h. let (r, u) = m t in continue-Refuses r f u (hm.stays t h) hf;
    }

  module _ (s : Loader S) where
    load_thread_count-IsCareful :
        (max : ℕ) (section : Section) → IsCareful s (load_thread_count max section)
    unfolding load_thread_count
    load_thread_count-IsCareful max section = record { stays = λ t h. ground arith }

    load_log_name-IsCareful :
        (can : Bytes → Bool) (section : Section) → IsCareful s (load_log_name can section)
    unfolding load_log_name
    load_log_name-IsCareful can section = record { stays = λ t h. ground arith }

    load_level-IsCareful : (section : Section) → IsCareful s (load_level section)
    unfolding load_level
    load_level-IsCareful section = record { stays = λ t h. ground arith }

    load_log_size-IsCareful : (section : Section) → IsCareful s (load_log_size section)
    unfolding load_log_size
    load_log_size-IsCareful section = record { stays = λ t h. ground arith }

    load_ram_size-IsCareful : (section : Section) → IsCareful s (load_ram_size section)
    unfolding load_ram_size
    load_ram_size-IsCareful section = record { stays = λ t h. ground arith }

    announce-Refuses :
        (can : Bytes → Bool) (tag name ram level : Bytes) (size : ℕ)
        → Refuses s (announce can tag name ram level size)
    unfolding announce
    announce-Refuses can tag name ram level size = record { refuses = λ t h. ground arith }

    load_section-Refuses :
        (env : Env) (tag : Bytes) (first : SlaveLoader S) (rest : List (SlaveLoader S))
        (section : Section)
        → Refuses s (load_section env tag first rest section)
    unfolding load_section
    load_section-Refuses env tag first rest section =
        bind-Refuses _ _ (load_thread_count-IsCareful _ section) λ _.
          bind-Refuses _ _ (load_log_name-IsCareful env.can_append section) λ name.
            bind-Refuses _ _ (load_level-IsCareful section) λ level.
              bind-Refuses _ _ (load_log_size-IsCareful section) λ size.
                bind-Refuses _ _ (load_ram_size-IsCareful section)
                  λ ram. announce-Refuses env.can_sink tag name ram level size

  -- A section that is refused gives CHILD_NEED_WORK or -1, by whether the log file was in use,
  -- and leaves the logger, the sink, the slaves and that flag as they were.
  pub load_section-Refused :
      (env : Env) (tag : Bytes) (first : SlaveLoader S) (rest : List (SlaveLoader S))
      (section : Section) (s : Loader S)
      → let (r, t) = load_section env tag first rest section s in Refused s r t
  load_section-Refused env tag first rest section s =
      (load_section-Refuses s env tag first rest section).refuses s
        (record { same_file = refl; same_log = refl; same_sink = refl; same_slaves = refl })
