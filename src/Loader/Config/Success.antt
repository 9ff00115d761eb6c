-- ===== src/Loader/Config/Success.antt =====
-- What a load that returns 0 has set up.
use robotd.Common.{
  ℕ, ◌<◌, ◌≤◌, ◌≡◌, Bytes, pos, Bool, true, Option, none, some, List, [], arith, codes,
  Option-cases, inl, inr,
}
use robotd.Loader.Level.{Level}
use robotd.Loader.Size.Laws.{size_parse-Sized}
use robotd.Loader.Settings.{Section, Root, Env, parsed-cases}
use robotd.Loader.State.{
  Sink, Logger, Loader, Keeps, Keeps-bind, Ensures, Ensures-bind, Ensures-then,
}
use robotd.Loader.Config.Failure.{load_section-Refused}
use robotd.Loader.Config.{
  returned, to_loaded, SlaveLoader, max_threads, slave_count, load_thread_count, load_log_name,
  load_level, load_log_size, load_ram_size, announce, load_slaves, load_section, load_root,
  load_file, daemon_load_config, or_else,
}

-- The logger writes to the sink of the load, at its level.
abbrev pub LogsAt : Option Logger → Option Sink → Level → Type 0
LogsAt none sink lev = ⊥
LogsAt (some logger) sink lev = (logger.level ≡ lev) × (some logger.sink ≡ sink)

module _ {S : Type 0} where
  pub record IsLoaded (max : ℕ) (t : Loader S) : Type 0 where
    pub in_use : t.log_to_file ≡ true
    pub threads : t.thread_count ≤ max
    pub some_ram : 0 < t.ramsize
    pub logging : LogsAt t.log t.sink t.lev

  abbrev ThreadsIn : ℕ → Loader S → Type 0
  ThreadsIn max t = t.thread_count ≤ max

  abbrev SomeRam : Loader S → Type 0
  SomeRam t = 0 < t.ramsize

  abbrev Logging : Loader S → Type 0
  Logging t = LogsAt t.log t.sink t.lev

  load_thread_count-ThreadsIn :
      (max : ℕ) (section : Section)
      → Ensures (ThreadsIn max) (load_thread_count {S = S} max section)
  unfolding load_thread_count
  load_thread_count-ThreadsIn max section = record { ensured = λ s a h. ground arith }

  load_ram_size-SomeRam : (section : Section) → Ensures SomeRam (load_ram_size {S = S} section)
  unfolding load_ram_size
  load_ram_size-SomeRam section = record {
    ensured = λ s a h.
        ground (
          arith,
          size_parse-Sized (or_else (section.string_value (codes "MaxRamUse")) []) s.ramsize,
        );
  }

  announce-Logging :
      (can : Bytes → Bool) (tag name ram level : Bytes) (size : ℕ)
      → Ensures Logging (announce {S = S} can tag name ram level size)
  unfolding announce
  announce-Logging can tag name ram level size = record { ensured = λ s a h. ground arith }

  announce-SomeRam :
      (can : Bytes → Bool) (tag name ram level : Bytes) (size : ℕ)
      → Keeps SomeRam (announce {S = S} can tag name ram level size)
  unfolding announce
  announce-SomeRam can tag name ram level size = record { kept = λ s p. ground arith }

  module _ (max : ℕ) where
    log_name-ThreadsIn :
        (can : Bytes → Bool) (section : Section)
        → Keeps (ThreadsIn max) (load_log_name {S = S} can section)
    unfolding load_log_name
    log_name-ThreadsIn can section = record { kept = λ s p. ground arith }

    level-ThreadsIn : (section : Section) → Keeps (ThreadsIn max) (load_level {S = S} section)
    unfolding load_level
    level-ThreadsIn section = record { kept = λ s p. ground arith }

    log_size-ThreadsIn : (section : Section) → Keeps (ThreadsIn max) (load_log_size {S = S} section)
    unfolding load_log_size
    log_size-ThreadsIn section = record { kept = λ s p. ground arith }

    ram_size-ThreadsIn : (section : Section) → Keeps (ThreadsIn max) (load_ram_size {S = S} section)
    unfolding load_ram_size
    ram_size-ThreadsIn section = record { kept = λ s p. ground arith }

    announce-ThreadsIn :
        (can : Bytes → Bool) (tag name ram level : Bytes) (size : ℕ)
        → Keeps (ThreadsIn max) (announce {S = S} can tag name ram level size)
    unfolding announce
    announce-ThreadsIn can tag name ram level size = record { kept = λ s p. ground arith }

  module _ (env : Env) (tag : Bytes) (first : SlaveLoader S) (rest : List (SlaveLoader S)) where
    abbrev max_of : ℕ
    max_of = max_threads env.hardware (slave_count rest)

    section-ThreadsIn :
        (section : Section) → Ensures (ThreadsIn max_of) (load_section env tag first rest section)
    unfolding load_section
    section-ThreadsIn section = Ensures-then _ _ (load_thread_count-ThreadsIn max_of section) λ _.
        Keeps-bind _ _ (log_name-ThreadsIn max_of env.can_append section) λ name.
          Keeps-bind _ _ (level-ThreadsIn max_of section) λ level.
            Keeps-bind _ _ (log_size-ThreadsIn max_of section) λ size.
              Keeps-bind _ _ (ram_size-ThreadsIn max_of section)
                λ ram. announce-ThreadsIn max_of env.can_sink tag name ram level size

    section-SomeRam :
        (section : Section) → Ensures SomeRam (load_section env tag first rest section)
    unfolding load_section
    section-SomeRam section = Ensures-bind (load_thread_count _ section) _ λ _.
        Ensures-bind (load_log_name env.can_append section) _ λ name.
          Ensures-bind (load_level section) _ λ level.
            Ensures-bind (load_log_size section) _ λ size.
              Ensures-then _ _ (load_ram_size-SomeRam section)
                λ ram. announce-SomeRam env.can_sink tag name ram level size

    section-Logging :
        (section : Section) → Ensures Logging (load_section env tag first rest section)
    unfolding load_section
    section-Logging section = Ensures-bind (load_thread_count _ section) _ λ _.
        Ensures-bind (load_log_name env.can_append section) _ λ name.
          Ensures-bind (load_level section) _ λ level.
            Ensures-bind (load_log_size section) _ λ size.
              Ensures-bind (load_ram_size section) _
                λ ram. announce-Logging env.can_sink tag name ram level size

    load_slaves-IsLoaded :
        (root : Root) (max : ℕ) (s : Loader S)
        → ThreadsIn max s
        → SomeRam s
        → Logging s
        → to_loaded (load_slaves first rest root s).0 ≡ returned (pos 0)
        → IsLoaded max (load_slaves first rest root s).1
    unfolding load_slaves
    load_slaves-IsLoaded root max s threads ram logging h = ground arith

    load_root-IsLoaded :
        (root : Root) (s : Loader S)
        → to_loaded (load_root env tag first rest root s).0 ≡ returned (pos 0)
        → IsLoaded max_of (load_root env tag first rest root s).1
    unfolding load_root
    load_root-IsLoaded root s h = elim (Option-cases (root (codes "Daemon"))) [
      | inl e ↦ ground arith
      | inr (section, e) ↦
          let t = (load_section env tag first rest section s).1 in
          ground (
            arith,
            (section-ThreadsIn section).ensured s tt,
            (section-SomeRam section).ensured s tt,
            (section-Logging section).ensured s tt,
            load_slaves-IsLoaded root max_of t,
            load_section-Refused env tag first rest section s,
          )
    ]

    -- A load that returns 0 has left the log file in use, at most the greatest thread count
    -- allowed, a memory limit above 0, and a logger at the level and on the sink of the loader.
    pub daemon_load_config-IsLoaded :
        (filename : Bytes) (s : Loader S)
        → (daemon_load_config env tag first rest filename s).0 ≡ returned (pos 0)
        → IsLoaded
            (max_threads env.hardware (slave_count rest))
            (daemon_load_config env tag first rest filename s).1
    unfolding daemon_load_config load_file
    daemon_load_config-IsLoaded filename s h = elim (parsed-cases (env.read_config filename)) [
      | inl e ↦ ground arith
      | inr (inl e) ↦ ground arith
      | inr (inr (root, e)) ↦ ground (arith, load_root-IsLoaded root s)
    ]
