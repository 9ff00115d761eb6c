-- ===== src/Loader/Config/Valid.antt =====
-- An invariant of the loader that every load keeps, also one that fails half way.
use robotd.Common.{
  ℕ, ◌<◌, ◌≡◌, ◌≢◌, Bytes, Bool, true, false, Option, none, some, List, arith, codes, Option-cases,
  inl, inr,
}
use robotd.Loader.Level.{off, from_str}
use robotd.Loader.Level.Laws.{from_str_iff}
use robotd.Loader.Settings.{Section, Root, Env, parsed-cases}
use robotd.Loader.State.{Logger, Loader, is_some, Keeps, Keeps-bind, Ensures, Ensures-bind}
use robotd.Loader.Config.{
  SlaveLoader, load_thread_count, load_log_name, load_level, default_level, set_level,
  load_log_size, load_ram_size, announce, load_slaves, load_section, load_root, load_file,
  daemon_load_config,
}

abbrev LoggerThere : Bool → Option Logger → Type 0
LoggerThere true log = is_some log ≡ true
LoggerThere false log = Unit

abbrev LevelOf : Option Logger → Type 0
LevelOf none = Unit
LevelOf (some logger) = logger.level ≢ off

module _ {S : Type 0} where
  -- The thread count fits `uint16_t` and is not 0, no level is `off`, and there is a logger once the
  -- log file is in use.
  pub record IsValid (s : Loader S) : Type 0 where
    pub some_thread : 0 < s.thread_count
    pub thread_limit : s.thread_count < 65535
    pub level_on : s.lev ≢ off
    pub logger_on : LevelOf s.log
    pub logger_there : LoggerThere s.log_to_file s.log

  abbrev HasLogger : Loader S → Type 0
  HasLogger s = is_some s.log ≡ true

  load_thread_count-IsValid :
      (max : ℕ) (section : Section) → Keeps IsValid (load_thread_count {S = S} max section)
  unfolding load_thread_count
  load_thread_count-IsValid max section = record { kept = λ s v. ground arith }

  load_log_name-IsValid :
      (can : Bytes → Bool) (section : Section) → Keeps IsValid (load_log_name {S = S} can section)
  unfolding load_log_name
  load_log_name-IsValid can section = record { kept = λ s v. ground arith }

  default_level-IsValid : Keeps IsValid (default_level {S = S})
  unfolding default_level
  default_level-IsValid = record { kept = λ s v. ground arith }

  set_level-IsValid : (name : Bytes) → Keeps IsValid (set_level {S = S} name)
  unfolding set_level
  set_level-IsValid name = record {
    kept = λ s v. elim (Option-cases (from_str name)) [
      | inl e ↦ ground arith
      | inr (l, e) ↦ let on = ((from_str_iff name l).0 e).1 in ground arith
    ];
  }

  load_level-IsValid : (section : Section) → Keeps IsValid (load_level {S = S} section)
  unfolding load_level
  load_level-IsValid section =
      Keeps-bind default_level _ default_level-IsValid (λ level. set_level-IsValid _)

  load_log_size-IsValid : (section : Section) → Keeps IsValid (load_log_size {S = S} section)
  unfolding load_log_size
  load_log_size-IsValid section = record { kept = λ s v. ground arith }

  load_ram_size-IsValid : (section : Section) → Keeps IsValid (load_ram_size {S = S} section)
  unfolding load_ram_size
  load_ram_size-IsValid section = record { kept = λ s v. ground arith }

  announce-IsValid :
      (can : Bytes → Bool) (tag name ram level : Bytes) (size : ℕ)
      → Keeps IsValid (announce {S = S} can tag name ram level size)
  unfolding announce
  announce-IsValid can tag name ram level size = record { kept = λ s v. ground arith }

  announce-HasLogger :
      (can : Bytes → Bool) (tag name ram level : Bytes) (size : ℕ)
      → Ensures HasLogger (announce {S = S} can tag name ram level size)
  unfolding announce
  announce-HasLogger can tag name ram level size = record { ensured = λ s a h. ground arith }

  load_slaves-IsValid :
      (first : SlaveLoader S) (rest : List (SlaveLoader S)) (root : Root) (s : Loader S)
      → HasLogger s
      → IsValid s
      → IsValid (load_slaves first rest root s).1
  unfolding load_slaves
  load_slaves-IsValid first rest root s l v = ground arith

  module _ (env : Env) (tag : Bytes) (first : SlaveLoader S) (rest : List (SlaveLoader S)) where
    load_section-IsValid :
        (section : Section) → Keeps IsValid (load_section env tag first rest section)
    unfolding load_section
    load_section-IsValid section = Keeps-bind _ _ (load_thread_count-IsValid _ section) λ _.
        Keeps-bind _ _ (load_log_name-IsValid env.can_append section) λ name.
          Keeps-bind _ _ (load_level-IsValid section) λ level.
            Keeps-bind _ _ (load_log_size-IsValid section) λ size.
              Keeps-bind _ _ (load_ram_size-IsValid section)
                λ ram. announce-IsValid env.can_sink tag name ram level size

    load_section-HasLogger :
        (section : Section) → Ensures HasLogger (load_section env tag first rest section)
    unfolding load_section
    load_section-HasLogger section = Ensures-bind (load_thread_count _ section) _ λ _.
        Ensures-bind (load_log_name env.can_append section) _ λ name.
          Ensures-bind (load_level section) _ λ level.
            Ensures-bind (load_log_size section) _ λ size.
              Ensures-bind (load_ram_size section) _
                λ ram. announce-HasLogger env.can_sink tag name ram level size

    load_root-IsValid :
        (root : Root) (s : Loader S) → IsValid s → IsValid (load_root env tag first rest root s).1
    unfolding load_root
    load_root-IsValid root s v = elim (Option-cases (root (codes "Daemon"))) [
      | inl e ↦ ground arith
      | inr (section, e) ↦ ground (
        arith,
        (load_section-IsValid section).kept s v,
        (load_section-HasLogger section).ensured s tt,
        load_slaves-IsValid first rest root (load_section env tag first rest section s).1,
      )
    ]

    -- Every load keeps the invariant of the loader, also one that fails half way: a thread
    -- count from 1 to 65534, no level off, and a logger once errors go to the log file.
    pub daemon_load_config-IsValid :
        (filename : Bytes) (s : Loader S)
        → IsValid s
        → IsValid (daemon_load_config env tag first rest filename s).1
    unfolding daemon_load_config load_file
    daemon_load_config-IsValid filename s v = elim (parsed-cases (env.read_config filename)) [
      | inl e ↦ ground arith
      | inr (inl e) ↦ ground arith
      | inr (inr (root, e)) ↦ ground (arith, load_root-IsValid root s v)
    ]
