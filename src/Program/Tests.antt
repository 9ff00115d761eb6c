-- ===== src/Program/Tests.antt =====
-- A whole run over the world in memory: a start, a reload and the end by SIGTERM.
mod Reload
mod System
mod Race
mod Terminate
mod Orphan
use robotd.Common.{
  ℕ, ◌≡◌, refl, Bytes, codes, true, none, some, List, [], ◌∷◌, pos, arith, str_eq, digits,
  after_digits, decimal, if◌then◌else◌,
}
use robotd.Common.{◌≢◌, word}
use robotd.Common.Decimal.{to_string}
use robotd.Directories.{run_dir}
use robotd.Cli.Scan.{scan_word}
use robotd.Daemon.Start.{pid_line}
use robotd.Definitions.{sighup, sigterm}
use robotd.Directories.{pid_file, config_load, default_config_file}
use robotd.Posix.{refused}
use robotd.Posix.Memory.{memory, memory-IsPosix}
use robotd.Loader.Level.{to_str, from_str, lower}
use robotd.Loader.Size as Size
use robotd.Loader.Settings.{Section, Env, parsed}
use robotd.Loader.State.{Loader}
use robotd.Loader.Config.{
  load_section, load_thread_count, load_log_name, load_level, load_log_size, load_ram_size,
  announce, load_slaves, load_slave_config, daemon_load_config,
}
use robotd.Loader.Class.{first_state}
use robotd.TcpServer.Config.{Settings, defaults, load_config}
use robotd.Cli.State.{Process}
use robotd.Cli.Load.{option_load, locate, save, retry}
use robotd.Cli.Parse.{main, run_daemon, parse_options, run_option, no_daemon_process}
use robotd.Daemon.Monitor.{in_child, in_parent, first_failure, run, step, monitor_proc}
use robotd.Daemon.Start.{Answers, daemon, daemonize, set_pid_file}
use robotd.Daemon.Reload.{IsOneLine, reload_config, first_line}
use robotd.Daemon.Class.{Turn, daemon_class}
use robotd.Daemon.Class.Laws.{IsTerm}
use robotd.Program.{Day, still_running, status, finish, serve, program}
use robotd.Program.Life.{and_then}
use robotd.Program.Main.{
  server_main, server_main-reload, server_main-terminated, server_main-exclusive, robot_daemon,
}
use robotd.Loader.Config.{returned}
use robotd.Daemon.Start.Fate.{IsErrno}

abbrev section : Section
section = record {
  int_value = λ name. none;
  uint_value = λ name. none;
  string_value = λ name.
      if str_eq name (codes "LogName")
      then some (codes "/var/log/robot")
      else if str_eq name (codes "Size")
      then some (codes "40k")
      else if str_eq name (codes "MaxRamUse")
      then some (codes "16m")
      else none;
}

abbrev environment : Env
environment = record {
  read_config = λ name. parsed (λ key. some section);
  hardware = 4;
  can_append = λ name. true;
  can_sink = λ name. true;
}

abbrev answers : Answers
answers = record {
  fork = in_child;
  fork_errno = 11;
  setsid = none;
  chdir = none;
  close_stdin = none;
  close_stdout = none;
  close_stderr = none;
  getpid = 4242;
}

-- One file, and no daemon.
abbrev installed : memory.World
unfolding memory
installed = record {
  files = (codes "/home/a.cfg", codes "") ∷ [];
  has_run_dir = true;
  procs = codes "1" ∷ [];
  signals = [];
}

abbrev process : Process memory
process = record { world = installed; errno = 0; config_file = default_config_file; output = [] }

-- The world while the daemon runs.
abbrev busy : memory.World
unfolding memory
busy = record {
  files =
      (pid_file, pid_line 4242)
      ∷ (config_load, codes "/home/a.cfg\n")
      ∷ (codes "/home/a.cfg", codes "")
      ∷ [];
  has_run_dir = true;
  procs = codes "1" ∷ to_string 4242 ∷ [];
  signals = [];
}

abbrev turn : ℕ → Turn memory
turn signal = record {
  fork = in_parent 100;
  work_proc = 2;
  sigwaitinfo = some signal;
  wait = none;
  kill = true;
  world = busy;
}

abbrev day : Day memory
day = record { answers = answers; setup = λ call. none; turns = turn sighup ∷ []; end_world = busy }

abbrev argv : List Bytes
argv = codes "robotd" ∷ codes "load" ∷ codes "a.cfg" ∷ []

begins : (main memory argv process).0 ≡ run_daemon (codes "/home/a.cfg")
unfolding main parse_options run_option no_daemon_process option_load locate save retry memory
    str_eq
begins = refl

abbrev loader : Loader Settings
loader = first_state defaults

goes_on : (server_main memory environment 0 0 argv day process).0 ≡ still_running
unfolding server_main program serve finish daemon_class daemon daemonize set_pid_file monitor_proc
    first_failure run step reload_config first_line daemon_load_config load_section
    load_thread_count load_log_name load_level from_str to_str lower load_log_size load_ram_size
    Size.size_parse Size.sized Size.scaled Size.match_unit Size.atoi digits after_digits decimal
    announce load_slaves load_slave_config load_config main parse_options run_option
    no_daemon_process option_load locate save retry memory str_eq
goes_on = refl

last-IsTerm : IsTerm (turn sigterm)
last-IsTerm = record { child = 100; started = refl; came = refl }

file-IsOneLine : IsOneLine (codes "/home/a.cfg")
file-IsOneLine = ground arith

answers-IsErrno : IsErrno answers
answers-IsErrno = record {
  fork = omega arith;
  setsid = λ h. cc;
  chdir = λ h. cc;
  close_stdin = λ h. cc;
  close_stdout = λ h. cc;
  close_stderr = λ h. cc;
}

server_main-reload_example :
    let load =
      daemon_load_config environment (codes "Daemon") load_config [] (codes "/home/a.cfg") in
    ((load loader).0 ≡ returned (pos 0))
    × (reload_config memory environment (codes "Daemon") load_config [] busy loader ≡ load loader)
unfolding main parse_options run_option no_daemon_process option_load locate save retry memory
    str_eq server_main
server_main-reload_example =
    server_main-reload memory environment 0 0 argv day process 2 (codes "/home/a.cfg") busy loader
      memory-IsPosix answers-IsErrno refl begins goes_on file-IsOneLine refl

server_main-terminated_example :
    let (fate, w) = server_main memory environment 0 0 argv (and_then day (turn sigterm)) process in
    (fate ≡ status 0) × (e : ℕ) × (memory.read w pid_file ≡ refused e)
unfolding first_failure memory str_eq server_main
server_main-terminated_example =
    server_main-terminated memory environment 0 0 argv day process (codes "/home/a.cfg")
      (turn sigterm) memory-IsPosix begins refl goes_on last-IsTerm refl
