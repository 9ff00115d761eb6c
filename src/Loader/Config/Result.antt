-- ===== src/Loader/Config/Result.antt =====
-- All that a load without an error leaves.
use robotd.Common.{
  ℕ, ◌≡◌, ◌++◌, Bytes, codes, ℤ, pos, Bool, true, false, Option, none, some, List, [], ◌∷◌, arith,
}
use robotd.Loader.Level.{Level, info, to_str, from_str, lower}
use robotd.Loader.Size.{size_parse}
use robotd.Loader.Settings.{Section, Root, Env, parsed}
use robotd.Loader.State.{Loader, Logger, Sink, next, loaded_options}
use robotd.Loader.Config.{
  given_level, returned, SlaveLoader, or_else, is_thread_count, max_threads, slave_count,
  load_thread_count, load_log_name, load_level, default_level, set_level, load_log_size,
  load_ram_size, announce, load_slaves, load_slave_config, load_section, load_root, load_file,
  daemon_load_config,
}

-- The level that stands if the section gives none: that of the logger once errors go to the log file,
-- which is there then, and else `info`.
abbrev pub DefaultLevel : Bool → Option Logger → Level → Type 0
DefaultLevel false log level = level ≡ info
DefaultLevel true none level = ⊥
DefaultLevel true (some logger) level = level ≡ logger.level

-- What an accepted section asks for, in the state `s`.
pub record Accepted {S : Type 0} (env : Env) (slaves : ℕ) (section : Section) (s : Loader S)
    : Type 0 where
  pub threads : ℕ
  pub threads_given :
      or_else (section.int_value (codes "ThreadCount")) (pos s.thread_count) ≡ pos threads
  pub threads_fit : is_thread_count (pos threads) (max_threads env.hardware slaves) ≡ true
  pub letter : ℕ
  pub letters : Bytes
  pub name_given : or_else (section.string_value (codes "LogName")) [] ≡ letter ∷ letters
  pub name_opens : env.can_append (letter ∷ letters) ≡ true
  pub sink_opens : env.can_sink (letter ∷ letters) ≡ true
  pub default : Level
  pub default_stands : DefaultLevel s.log_to_file s.log default
  pub level : Level
  pub level_named :
      from_str (lower (or_else (section.string_value (codes "LogLevel")) (to_str default)))
      ≡ some level
  pub size : ℕ
  pub size_read : size_parse (or_else (section.string_value (codes "Size")) []) 0 ≡ (none, size)
  pub ram : ℕ
  pub ram_read :
      size_parse (or_else (section.string_value (codes "MaxRamUse")) []) s.ramsize ≡ (none, ram)

-- The limit of the memory, as it is written.
abbrev pub ram_text : Section → Bytes
ram_text section = or_else (section.string_value (codes "MaxRamUse")) []

module _ {S : Type 0} where
  pub load_thread_count-next :
      (max : ℕ) (section : Section) (s : Loader S) (n : ℕ)
      → or_else (section.int_value (codes "ThreadCount")) (pos s.thread_count) ≡ pos n
      → is_thread_count (pos n) max ≡ true
      → load_thread_count max section s ≡ (next tt, record s { thread_count = n })
  unfolding load_thread_count
  load_thread_count-next max section s n e h = rw (e, h)

  pub load_log_name-next :
      (can : Bytes → Bool) (section : Section) (s : Loader S) (c : ℕ) (name : Bytes)
      → or_else (section.string_value (codes "LogName")) [] ≡ c ∷ name
      → can (c ∷ name) ≡ true
      → load_log_name can section s ≡ (next (c ∷ name), s)
  unfolding load_log_name
  load_log_name-next can section s c name e h = ground (arith, e, h)

  default_level-next :
      (s : Loader S) (level : Level)
      → DefaultLevel s.log_to_file s.log level
      → default_level s ≡ (next level, s)
  unfolding default_level
  default_level-next s level h = ground arith

  pub load_level-next :
      (section : Section) (s : Loader S) (default level : Level)
      → DefaultLevel s.log_to_file s.log default
      → from_str (lower (or_else (section.string_value (codes "LogLevel")) (to_str default)))
        ≡ some level
      → load_level section s ≡ (
        next (lower (or_else (section.string_value (codes "LogLevel")) (to_str default))),
        record s { lev = level },
      )
  unfolding load_level set_level
  load_level-next section s default level h e = rw (default_level-next s default h, e)

  pub load_log_size-next :
      (section : Section) (s : Loader S) (size : ℕ)
      → size_parse (or_else (section.string_value (codes "Size")) []) 0 ≡ (none, size)
      → load_log_size section s ≡ (next size, s)
  unfolding load_log_size
  load_log_size-next section s size e = rw e

  pub load_ram_size-next :
      (section : Section) (s : Loader S) (ram : ℕ)
      → size_parse (or_else (section.string_value (codes "MaxRamUse")) []) s.ramsize ≡ (none, ram)
      → load_ram_size section s
        ≡ (next (or_else (section.string_value (codes "MaxRamUse")) []), record s { ramsize = ram })
  unfolding load_ram_size
  load_ram_size-next section s ram e = rw e

  -- The sink and the logger that an accepted section leads to.
  abbrev pub sink_of :
      {env : Env} {slaves : ℕ} {section : Section} {s : Loader S}
      → Accepted env slaves section s
      → Sink
  sink_of a = record { base = a.letter ∷ a.letters; max_size = a.size }

  abbrev pub level_text :
      {env : Env} {slaves : ℕ} (section : Section) {s : Loader S}
      → Accepted env slaves section s
      → Bytes
  level_text section a =
      lower (or_else (section.string_value (codes "LogLevel")) (to_str a.default))

  abbrev pub after_section :
      {env : Env} {slaves : ℕ}
      → Bytes
      → (section : Section) (s : Loader S) → Accepted env slaves section s
      → Loader S
  after_section tag section s a = record s {
    thread_count = a.threads;
    lev = a.level;
    sink = some (sink_of a);
    ramsize = a.ram;
    log = some (record { tag = tag ++ codes "_logger"; sink = sink_of a; level = a.level });
    reports =
        s.reports
        ++ (
          s.log_to_file,
          loaded_options a.threads (a.letter ∷ a.letters) (ram_text section) (level_text section a)
              a.ram,
        )
          ∷ [];
  }

  announce-next :
      (can : Bytes → Bool) (tag name ram level : Bytes) (size : ℕ) (s : Loader S)
      → can name ≡ true
      → let file : Sink = record { base = name; max_size = size } in
        announce can tag name ram level size s ≡ (
          next tt,
          record s {
            sink = some file;
            log = some (record { tag = tag ++ codes "_logger"; sink = file; level = s.lev });
            reports =
                s.reports
                ++ (s.log_to_file, loaded_options s.thread_count name ram level s.ramsize) ∷ [];
          },
        )
  unfolding announce
  announce-next can tag name ram level size s h = ground (arith, h)

  module _ (env : Env) (tag : Bytes) (first : SlaveLoader S) (rest : List (SlaveLoader S)) where
    pub load_section-next :
        (section : Section) (s : Loader S) (a : Accepted env (slave_count rest) section s)
        → load_section env tag first rest section s ≡ (next tt, after_section tag section s a)
    unfolding load_section
    load_section-next section s a =
        rw
          (
            load_thread_count-next (max_threads env.hardware (slave_count rest)) section s a.threads
                a.threads_given a.threads_fit,
            load_log_name-next env.can_append section (record s { thread_count = a.threads })
                a.letter a.letters a.name_given a.name_opens,
            load_level-next section (record s { thread_count = a.threads }) a.default a.level
                a.default_stands a.level_named,
            load_log_size-next section (record s { thread_count = a.threads; lev = a.level }) a.size
                a.size_read,
            load_ram_size-next section (record s { thread_count = a.threads; lev = a.level }) a.ram
                a.ram_read,
          )
          (announce-next env.can_sink tag (a.letter ∷ a.letters) (ram_text section)
            (level_text section a) a.size
            (record s { thread_count = a.threads; lev = a.level; ramsize = a.ram }) a.sink_opens)

    load_slaves-next :
        (root : Root) (s : Loader S) (n : ℤ)
        → (load_slave_config first rest root (given_level s) s.log_to_file s.slaves).0 ≡ returned n
        → load_slaves first rest root s ≡ (
          next n,
          record s {
            slaves = (load_slave_config first rest root (given_level s) s.log_to_file s.slaves).1;
            log_to_file = true;
          },
        )
    unfolding load_slaves
    load_slaves-next root s n e = rw (e)

    pub load_root-next :
        (root : Root) (section : Section) (s : Loader S)
        (a : Accepted env (slave_count rest) section s)
        → root (codes "Daemon") ≡ some section
        → load_root env tag first rest root s
          ≡ load_slaves first rest root (after_section tag section s a)
    unfolding load_root
    load_root-next root section s a e = rw (load_root, e, load_section-next section s a)

    -- On a file whose section Daemon is accepted in the state of the loader (the thread count
    -- fits, the log file opens, the level, taken from the logger or info if none is given, has
    -- a name, and both sizes are read), if the slaves return a number, the load returns that
    -- number, and its whole state is what the section asks for: the thread count, the level,
    -- the memory limit, a sink and a logger on the log file, the report of the options, the
    -- slaves as they left themselves, and the log file in use.
    pub daemon_load_config-Accepted :
        (filename : Bytes) (root : Root) (section : Section) (s : Loader S) (n : ℤ)
        → env.read_config filename ≡ parsed root
        → root (codes "Daemon") ≡ some section
        → (a : Accepted env (slave_count rest) section s)
        → (load_slave_config first rest root a.level s.log_to_file s.slaves).0 ≡ returned n
        → daemon_load_config env tag first rest filename s ≡ (
          returned n,
          record (after_section tag section s a) {
            slaves = (load_slave_config first rest root a.level s.log_to_file s.slaves).1;
            log_to_file = true;
          },
        )
    unfolding daemon_load_config load_file
    daemon_load_config-Accepted filename root section s n file found a e = rw (
      daemon_load_config,
      load_file,
      file,
      load_root-next root section s a found,
      load_slaves-next root (after_section tag section s a) n e,
    )
