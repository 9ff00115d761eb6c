-- ===== src/Loader/Config.antt =====
-- `load_slave_config` and `daemon_load_config` of loader/loader_impl.hpp.
pub mod Slaves
pub mod Valid
pub mod Success
pub mod Failure
pub mod Result
pub mod Accepts
pub mod Succeeds
use robotd.Common.{
  ℕ, ◌+◌, ◌%◌, ◌^◌, ◌++◌, Bytes, codes, ℤ, pos, negsuc, is_nonzero, Bool, true, false, ◌&&◌, Option,
  none, some, List, [], ◌∷◌, ◌==◌, leb, ltb,
}
use robotd.Common as Common
use robotd.Loader.Level.{Level, info, to_str, from_str, lower}
use robotd.Loader.Size.{SizeError, size_parse, failure}
use robotd.Loader.Settings.{Section, Root, Parsed, io_error, parse_error, parsed, Env}
use robotd.Loader.State.{
  Sink, Logger, Loader, M, Flow, next, return, abort, ◌>>=◌, ◌>>◌, pure, fatal, return_now,
  if◌then◌else◌, fail, get, put, report, no_file, bad_syntax, no_log_name, no_log_file, bad_threads,
  bad_level, bad_size, loaded_options,
}

-- The static `load_config` of a slave class, which is given the logger too, here the level it
-- writes from: a number, or an exception that nobody catches.
pub data Loaded : Type 0 where
  returned : ℤ → Loaded
  thrown : Loaded

abbrev pub to_loaded : Flow ℤ → Loaded
to_loaded (next n) = returned n
to_loaded (return n) = returned n
to_loaded abort = thrown

abbrev pub SlaveLoader : Type 0 → Type 0
SlaveLoader S = Root → Level → Bool → S → Loaded × S

abbrev pub or_else {ℓ} : {A : Type ℓ} → Option A → A → A
or_else none d = d
or_else (some a) d = a

-- `dummy <= max_threads && dummy > 0 && dummy < 65535`
abbrev pub is_thread_count : ℤ → ℕ → Bool
is_thread_count (pos n) max = leb n max && (ltb 0 n && ltb n 65535)
is_thread_count (negsuc n) max = false

abbrev pub max_threads : ℕ → ℕ → ℕ
max_threads hardware slaves =
    let max = hardware % 2 ^ 16 in Common.if◌then◌else◌ (max == 0) slaves max

abbrev to_ℕ : ℤ → ℕ
to_ℕ (pos n) = n
to_ℕ (negsuc n) = 0

module _ {S : Type 0} where
  -- The level of the logger that the slaves are given. The load has made it by then.
  abbrev pub given_level : Loader S → Level
  given_level s = elim s.log [ none ↦ s.lev | some logger ↦ logger.level ]

  -- The recursion over the template parameters, of which there is one at least. It stops at the
  -- first slave that does not return 0.
  unfoldable pub load_slave_config : SlaveLoader S → List (SlaveLoader S) → SlaveLoader S
  load_slave_config first [] root level to_file s = first root level to_file s
  load_slave_config first (second ∷ rest) root level to_file s =
      let (r, t) = first root level to_file s in
      let others = load_slave_config second rest root level to_file t in
      elim r [
        | thrown ↦ (thrown, t)
        | returned n ↦ Common.if◌then◌else◌ (is_nonzero n) (returned n, t) others
      ]

  -- The length of the parameter pack, `sizeof...(slave)`.
  abbrev pub slave_count : List (SlaveLoader S) → ℕ
  slave_count rest = 1 + Common.length rest

  unfoldable pub load_thread_count : ℕ → Section → M S Unit
  load_thread_count max section = do
    s ← get
    let dummy = or_else (section.int_value (codes "ThreadCount")) (pos s.thread_count)
    if is_thread_count dummy max
        then put (record s { thread_count = to_ℕ dummy })
        else fail (bad_threads max dummy)

  unfoldable pub load_log_name : (Bytes → Bool) → Section → M S Bytes
  load_log_name can_append section =
      let name = or_else (section.string_value (codes "LogName")) [] in
      elim name [
        | [] ↦ fail no_log_name
        | c ∷ rest ↦ if can_append (c ∷ rest) then pure (c ∷ rest) else fail no_log_file
      ]

  -- The level that stands if none is given: that of the logger, or `info` at the first load.
  default_level : M S Level
  default_level = do
    s ← get
    if s.log_to_file
        then elim s.log [ none ↦ fatal | some logger ↦ pure logger.level ]
        else pure info

  set_level : Bytes → M S Bytes
  set_level name = do
    s ← get
    elim (from_str name) [
      | none ↦ fail (bad_level name)
      | some l ↦ do put (record s { lev = l }); pure name
    ]

  unfoldable pub load_level : Section → M S Bytes
  unfolding default_level set_level
  load_level section = do
    level ← default_level
    set_level (lower (or_else (section.string_value (codes "LogLevel")) (to_str level)))

  checked : Option SizeError → M S Unit
  checked none = pure tt
  checked (some e) = fail (bad_size e)

  unfoldable pub load_log_size : Section → M S ℕ
  unfolding checked
  load_log_size section = do
    let (error, size) = size_parse (or_else (section.string_value (codes "Size")) []) 0
    checked error
    pure size

  -- `ramsize` is written by `size_parse` before the error is looked at.
  unfoldable pub load_ram_size : Section → M S Bytes
  unfolding checked
  load_ram_size section = do
    s ← get
    let text = or_else (section.string_value (codes "MaxRamUse")) []
    let (error, size) = size_parse text s.ramsize
    put (record s { ramsize = size })
    checked error
    pure text

  -- The exception of a sink that cannot be made is caught nowhere.
  unfoldable pub make_logger : (Bytes → Bool) → Bytes → Bytes → ℕ → M S Unit
  make_logger can_sink tag name size = do
    s ← get
    let file : Sink = record { base = name; max_size = size }
    if can_sink name
        then put (record s {
          sink = some file;
          log = some (record { tag = tag ++ codes "_logger"; sink = file; level = s.lev });
        })
        else fatal

  -- The logger is made, and then the options that were loaded are printed.
  unfoldable pub announce : (Bytes → Bool) → Bytes → Bytes → Bytes → Bytes → ℕ → M S Unit
  unfolding make_logger
  announce can_sink tag name ram level size = do
    make_logger can_sink tag name size
    s ← get
    report (loaded_options s.thread_count name ram level s.ramsize)

  -- The slaves load, and from now on errors go to the log file, whatever they returned.
  unfoldable pub load_slaves : SlaveLoader S → List (SlaveLoader S) → Root → M S ℤ
  load_slaves first rest root = do
    s ← get
    let (r, t) = load_slave_config first rest root (given_level s) s.log_to_file s.slaves
    put (record s { slaves = t })
    elim r [
      | thrown ↦ fatal
      | returned n ↦ do put (record s { slaves = t; log_to_file = true }); pure n
    ]

  module _ (env : Env) (tag : Bytes) (first : SlaveLoader S) (rest : List (SlaveLoader S)) where
    -- The section `Daemon`, option by option.
    unfoldable pub load_section : Section → M S Unit
    load_section section = do
      load_thread_count (max_threads env.hardware (slave_count rest)) section
      name ← load_log_name env.can_append section
      level ← load_level section
      size ← load_log_size section
      ram ← load_ram_size section
      announce env.can_sink tag name ram level size

    unfoldable pub load_root : Root → M S ℤ
    load_root root = elim (root (codes "Daemon")) [
      | none ↦ fatal
      | some section ↦ do load_section section; load_slaves first rest root
    ]

    unfoldable pub load_file : Bytes → M S ℤ
    load_file filename = elim (env.read_config filename) [
      | io_error ↦ fail no_file
      | parse_error ↦ fail bad_syntax
      | parsed root ↦ load_root root
    ]

    unfoldable pub daemon_load_config : Bytes → Loader S → Loaded × Loader S
    unfolding load_file load_root
    daemon_load_config filename s = let (r, t) = load_file filename s in (to_loaded r, t)
