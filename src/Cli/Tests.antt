-- ===== src/Cli/Tests.antt =====
-- Runs of daemon/cli_parser.cpp over the world in memory, and the theorems at concrete data.
use robotd.Common.{
  some, ◌↔◌, pos, ◌≡◌, refl, Bytes, codes, true, false, List, [], ◌∷◌, arith, str_eq, digits,
  decimal, decimal_from, word, Bool, take, length, ◌++◌, ◌||◌, ◌&&◌,
}
use robotd.Definitions.{sighup, sigterm}
use robotd.Directories.{pid_file, config_load, default_config_file}
use robotd.Posix.Memory.{Disk, memory, memory-IsPosix}
use robotd.Cli.State.{Process, stopped_pid}
use robotd.Cli.Options.{Keys, options, help_lines, usage_lines}
use robotd.Cli.Load.{ret, option_load, locate, save, retry}
use robotd.Cli.Load.Saved.{IsSaved}
use robotd.Cli.Load.Saved.Found.{IsFound, option_load-IsFound}
use robotd.Cli.Scan.{scan_u16, scan_word, is_process, find_process}
use robotd.Cli.Parse.{
  exits, run_daemon, no_daemon_process, check_saved, command, daemon_process, drop_pid_file,
  read_pid, run_option, parse_options, main, Outcome,
}
use robotd.Cli.Parse.Running.{IsLive, HasConfig}
use robotd.Cli.Parse.Vacant.{IsStart, main_vacant_iff}
use robotd.Cli.Parse.Signals.{Does, reloaded, main-Does}
use robotd.Cli.Parse.Stopped.{main-bad_pid_file}

abbrev conf : Bytes × Bytes
conf = (codes "/home/a.cfg", codes "")

abbrev pid_line : Bytes
pid_line = codes "42\n"

abbrev no_daemon : Disk
no_daemon = record {
  files = conf ∷ [];
  has_run_dir = false;
  procs = codes "1" ∷ codes "self" ∷ [];
  signals = [];
}

abbrev running : Disk
running = record {
  files = (pid_file, pid_line) ∷ (config_load, codes "/home/a.cfg\n") ∷ conf ∷ [];
  has_run_dir = true;
  procs = codes "1" ∷ codes "42" ∷ [];
  signals = [];
}

abbrev stale : Disk
stale = record running { procs = codes "1" ∷ [] }

abbrev process_at : Disk → Process memory
process_at d =
    unfold memory in record { world = d; errno = 0; config_file = default_config_file; output = [] }

abbrev asked : Process memory
asked = unfold memory in record (process_at no_daemon) { config_file = codes "a.cfg" }

run : List Bytes → Disk → Outcome × Process memory
unfolding main parse_options run_option read_pid drop_pid_file daemon_process command check_saved
    no_daemon_process option_load locate save retry memory scan_u16 scan_word find_process
    is_process str_eq digits decimal word
run argv d = main memory argv (process_at d)

-- The first start makes the missing directory and leaves the full path for the daemon.
load_first :
    (run (codes "robotd" ∷ codes "load" ∷ codes "a.cfg" ∷ []) no_daemon).0
    ≡ run_daemon (codes "/home/a.cfg")
unfolding run
load_first = refl

-- A second `load` sends SIGHUP instead.
load_again :
    let (out, s) = run (codes "robotd" ∷ codes "load" ∷ codes "a.cfg" ∷ []) running in
    (out ≡ exits 0) × (unfold memory in s.world.signals ≡ (42, sighup) ∷ [])
unfolding run
load_again = (refl, refl)

stop_running :
    let (out, s) = run (codes "robotd" ∷ codes "stop" ∷ []) running in
    (out ≡ exits 0)
    × (unfold memory in s.world.signals ≡ (42, sigterm) ∷ [])
    × (s.output ≡ stopped_pid 42 ∷ [])
unfolding run
stop_running = (refl, refl, refl)

option_load-IsFound_example :
    let t = (option_load memory asked).1 in IsSaved memory t × IsFound memory asked t.config_file
unfolding option_load locate save retry memory str_eq
option_load-IsFound_example = option_load-IsFound memory memory-IsPosix asked refl

main_vacant_iff_example :
    ((main memory (codes "robotd" ∷ codes "load" ∷ codes "a.cfg" ∷ []) (process_at no_daemon)).0
      ≡ run_daemon (codes "/home/a.cfg"))
    ↔ (IsStart (codes "load")
        × ((option_load memory (record asked { errno = 2 })).0 ≡ ret (pos 0))
        × ((option_load memory (record asked { errno = 2 })).1.config_file ≡ codes "/home/a.cfg"))
unfolding memory str_eq
main_vacant_iff_example =
    main_vacant_iff memory (process_at no_daemon) 2 refl (codes "robotd") (codes "load")
      (some (codes "a.cfg")) (codes "/home/a.cfg")

running-IsLive : IsLive memory (process_at running) pid_line 42
unfolding memory scan_u16 find_process is_process str_eq digits decimal
running-IsLive = record {
  readable = refl;
  numbered = refl;
  names = codes "1" ∷ codes "42" ∷ [];
  opens = refl;
  listed = refl;
}

running-HasConfig :
    HasConfig memory (process_at running) (codes "/home/a.cfg\n") b'/' (codes "home/a.cfg")
unfolding memory scan_word str_eq word
running-HasConfig = record { readable = refl; named = refl; fits = omega arith }

main-Does_example :
    let s = process_at running in
    let name = codes "robotd" in
    let loaded = option_load memory (record s { config_file = codes "a.cfg" }) in
    Does memory (name ∷ codes "load" ∷ codes "a.cfg" ∷ []) s (exits 0) (reloaded memory 42 loaded)
    × Does memory (name ∷ codes "reload" ∷ []) s (exits 0) (memory.kill s.world 42 sighup).1
    × Does memory
        (name ∷ codes "restart" ∷ [])
        s
        (run_daemon (codes "/home/a.cfg"))
        (memory.kill s.world 42 sigterm).1
    × Does memory (name ∷ codes "stop" ∷ []) s (exits 0) (memory.kill s.world 42 sigterm).1
    × Does memory (name ∷ codes "status" ∷ []) s (exits 0) s.world
    × Does memory (name ∷ codes "help" ∷ []) s (exits 0) s.world
unfolding memory decimal decimal_from option_load locate
main-Does_example =
    main-Does memory memory-IsPosix (process_at running) pid_line 42 running-IsLive
      (codes "/home/a.cfg\n") b'/' (codes "home/a.cfg") running-HasConfig (codes "robotd")
      (codes "a.cfg")

main-bad_pid_file_example :
    let s = process_at (record running { files = (pid_file, []) ∷ [] }) in
    (main memory (codes "robotd" ∷ codes "stop" ∷ []) s).0 ≡ run_daemon default_config_file
unfolding memory scan_u16 str_eq
main-bad_pid_file_example =
    main-bad_pid_file memory (process_at (record running { files = (pid_file, []) ∷ [] })) [] refl
      refl refl (codes "robotd") (codes "stop") refl

-- Whether the usage text or the help names an option: a line begins with a tabulator and the name.
abbrev is_prefix : Bytes → Bytes → Bool
is_prefix name line = str_eq (take (length name) line) name

abbrev is_named : Bytes → List Bytes → Bool
is_named name [] = false
is_named name (line ∷ lines) = is_prefix (codes "\t" ++ name) line || is_named name lines

abbrev all_named : List Keys → List Bytes → Bool
all_named [] lines = true
all_named (k ∷ keys) lines = is_named k.key lines && all_named keys lines

-- Both texts name every option.
options_named :
    (all_named options help_lines ≡ true) × (all_named (take 6 options) usage_lines ≡ true)
unfolding str_eq usage_lines
options_named = (refl, refl)
