-- ===== src/Loader/Class.antt =====
-- The class robot::loader of loader/loader.hpp: its state at first, and its operations.
pub mod Frame
pub mod History
pub mod Slaves
use robotd.Common.{ℕ, ℤ, pos, Bytes, Bool, true, false, Option, none, some, List, [], ◌≡◌, ◌⊎◌}
use robotd.Loader.Level.{info}
use robotd.Loader.Size.{SizeError, failure}
use robotd.Loader.Size as Size
use robotd.Loader.Settings.{Root, Env}
use robotd.Loader.State.{Loader, M, Flow, fail, pure, bad_size}
use robotd.Loader.Config.{Loaded, returned, thrown, to_loaded, SlaveLoader, given_level}
use robotd.Loader.Config as Config

-- The static members before the program loads a configuration. `slaves` is what the static members of
-- the slave classes hold, and `log` is the null pointer of a new object.
abbrev pub first_state : {S : Type 0} → S → Loader S
first_state slaves = record {
  log_to_file = false;
  thread_count = 2;
  lev = info;
  sink = none;
  ramsize = 0;
  log = none;
  reports = [];
  slaves = slaves;
}

-- The operations, which are template functions of the slave classes, the first and the others. An object
-- cannot be made without a tag, nor be copied, moved or assigned.
pub record LoaderClass (S : Type 0) : Type 0 where
  pub tag : Bytes
  pub load_slave_config : SlaveLoader S → List (SlaveLoader S) → Root → Loader S → Loaded × Loader S
  pub size_parse : Bytes → ℕ → Loader S → Loaded × ℕ × Loader S
  pub daemon_load_config :
      SlaveLoader S → List (SlaveLoader S) → Bytes → Loader S → Loaded × Loader S

module _ {S : Type 0} where
  -- `load_slave_config` as a member: the slaves are told whether errors go to the log file.
  unfoldable pub load_slave_config :
      SlaveLoader S → List (SlaveLoader S) → Root → Loader S → Loaded × Loader S
  load_slave_config first rest root s =
      let (r, slaves) =
        Config.load_slave_config first rest root (given_level s) s.log_to_file s.slaves in
      (r, record s { slaves = slaves })

  report_size : Option SizeError → M S ℤ
  report_size none = pure (pos 0)
  report_size (some e) = fail (bad_size e)

  -- `size_parse` as a member: the number it returns, the variable, and the report of an error.
  unfoldable pub size_parse : Bytes → ℕ → Loader S → Loaded × ℕ × Loader S
  unfolding report_size
  size_parse text logsize s =
      let (error, size) = Size.size_parse text logsize in
      let (r, t) = report_size error s in (to_loaded r, size, t)

  -- The constructor, which only stores the tag.
  abbrev pub loader : Env → Bytes → LoaderClass S
  loader env t = record {
    tag = t;
    load_slave_config = load_slave_config;
    size_parse = size_parse;
    daemon_load_config = Config.daemon_load_config env t;
  }
