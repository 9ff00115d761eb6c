-- ===== src/Loader/Tests.antt =====
-- The loader run on the options of cfg/daemon.cfg, and the theorems at concrete data.
mod Result
use robotd.Common.{
  ℕ, ◌≡◌, ◌≢◌, ◌↔◌, refl, ◌+◌, ◌-◌, ◌*◌, ◌^◌, Bytes, codes, pos, true, false, Option, none, some,
  List, [], ◌∷◌, ◌++◌, arith, str_eq, if◌then◌else◌, digits, after_digits, decimal,
}
use robotd.Common.Decimal.{to_string}
use robotd.Loader.Level.{trace, warn, off, to_str, from_str, lower}
use robotd.Loader.Level.Laws.{from_str_iff}
use robotd.Loader.Size.{size_parse, sized, scaled, match_unit, atoi, is_unit}
use robotd.Loader.Size.Laws.{
  Sized, factor, size_parse-Sized, size_parse-to_string, size_parse_overflow,
}
use robotd.Loader.Settings.{Section, Root, parsed, Env}
use robotd.Loader.State.{Loader}
use robotd.Loader.Config.{
  Loaded, returned, max_threads, load_slave_config, load_thread_count, load_log_name, load_level,
  load_log_size, load_ram_size, announce, load_slaves, load_section, daemon_load_config,
}
use robotd.Loader.Config.Slaves.{AllZero, load_slave_config_iff}
use robotd.Loader.Config.Valid.{IsValid, daemon_load_config-IsValid}
use robotd.Loader.Config.Success.{IsLoaded, daemon_load_config-IsLoaded}
use robotd.Loader.Config.Failure.{Refused, load_section-Refused}
use robotd.Loader.Class.{first_state}
use robotd.Loader.Class.History.{loads}
use robotd.TcpServer.Config.Loads.{loads-defaults}
use robotd.TcpServer.Config.{Settings, defaults, load_config, IsPort}

abbrev pick {ℓ} : {A : Type ℓ} → Bytes → Bytes → Option A → Option A → Option A
pick name key a rest = if str_eq name key then a else rest

-- cfg/daemon.cfg, with the level and the thread count as parameters.
abbrev daemon_options : Bytes → ℕ → Section
daemon_options level threads = record {
  int_value = λ name. pick name (codes "ThreadCount") (some (pos threads)) none;
  uint_value = λ name. none;
  string_value = λ name. pick name (codes "LogName") (some (codes "/var/log/robot")) (
      pick name (codes "LogLevel") (some level) (
        pick name (codes "Size") (some (codes "40k"))
          (pick name (codes "MaxRamUse") (some (codes "16m")) none)));
}

abbrev server_options : ℕ → Section
server_options port = record {
  int_value = λ name. none;
  uint_value = λ name. pick name (codes "Port") (some port) none;
  string_value = λ name. pick name (codes "Address") (some (codes "127.0.0.1")) none;
}

abbrev config : Bytes → ℕ → ℕ → Root
config level threads port name =
    pick name (codes "Daemon") (some (daemon_options level threads))
      (pick name (codes "TCPServer") (some (server_options port)) none)

abbrev environment : Root → Env
environment root = record {
  read_config = λ name. parsed root;
  hardware = 4;
  can_append = λ name. true;
  can_sink = λ name. true;
}

abbrev initial : Loader Settings
initial = first_state defaults

load : Root → Loader Settings → Loaded × Loader Settings
unfolding daemon_load_config load_section load_thread_count load_log_name load_level from_str to_str
    lower str_eq load_log_size load_ram_size size_parse sized scaled match_unit atoi digits
    after_digits decimal announce load_slaves load_slave_config load_config
load root = daemon_load_config (environment root) (codes "Daemon") load_config [] (codes "a.cfg")

first_load :
    let (r, s) = load (config (codes "Trace") 2 4444) initial in
    (r ≡ returned (pos 0))
    × (s.lev ≡ trace)
    × (s.ramsize ≡ 16 * 1048576)
    × (s.slaves.port ≡ 4444)
    × (s.sink ≡ some (record { base = codes "/var/log/robot"; max_size = 40960 }))
unfolding load
first_load = (refl, refl, refl, refl, refl)

-- The level "warn", which cfg/daemon.cfg lists, is refused: its name is "warning".
warn_is_refused : (from_str (codes "warn") ≡ none) × (from_str (codes "warning") ≡ some warn)
unfolding from_str to_str str_eq
warn_is_refused = (refl, refl)

-- A refused level comes after a thread count that is stored already.
partial_load :
    let (r, s) =
      load (config (codes "warn") 4 4444) (load (config (codes "info") 2 4444) initial).1 in
    (r ≡ returned (pos 3)) × (s.thread_count ≡ 4)
unfolding load
partial_load = (refl, refl)

size_parse-to_string_example :
    (size_parse (to_string 40) 0 ≡ (none, 40))
    × (size_parse (to_string 40 ++ b'k' ∷ []) 0 ≡ (none, 40 * factor b'k'))
unfolding is_unit
size_parse-to_string_example = size_parse-to_string 40 0 b'k' (omega arith) (omega arith) refl

size_parse_overflow_example :
    size_parse (to_string 3000000000) 0 ≡ (none, 3000000000 + (2 ^ 64 - 2 ^ 32))
size_parse_overflow_example = size_parse_overflow 3000000000 0 (omega arith) (omega arith)

initial-IsValid : IsValid initial
initial-IsValid = ground arith

daemon_load_config-IsValid_example :
    IsValid
      (daemon_load_config
        (environment (config (codes "warn") 4 0))
        (codes "Daemon")
        load_config
        []
        (codes "a.cfg")
        initial).1
daemon_load_config-IsValid_example =
    daemon_load_config-IsValid (environment (config (codes "warn") 4 0)) (codes "Daemon")
      load_config [] (codes "a.cfg") initial initial-IsValid

load_section-Refused_example :
    let section = daemon_options (codes "warn") 4 in
    let (r, t) =
      load_section
        (environment (config (codes "warn") 4 0))
        (codes "Daemon")
        load_config
        []
        section
        initial in
    Refused initial r t
load_section-Refused_example =
    load_section-Refused (environment (config (codes "warn") 4 0)) (codes "Daemon") load_config []
      (daemon_options (codes "warn") 4) initial

abbrev history : List (Env × Bytes)
history =
    (environment (config (codes "info") 2 4444), codes "a.cfg")
    ∷ (environment (config (codes "warn") 4 0), codes "b.cfg")
    ∷ []

loads-defaults_example :
    let s = loads (codes "Daemon") load_config [] history initial in
    IsValid s × IsPort s.slaves.port
loads-defaults_example = loads-defaults history
