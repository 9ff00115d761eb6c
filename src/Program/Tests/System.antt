-- ===== src/Program/Tests/System.antt =====
-- A daemon that is started, a second command, and a restart, in the world of the tests.
mod Renew
use robotd.Common.{
  ℕ, ◌≡◌, refl, inl, codes, Bytes, none, some, [], ◌∷◌, List, arith, length, str_eq, digits,
  after_digits, decimal, decimal_from, word, skip_space,
}
use robotd.Common.Decimal.{to_string}
use robotd.Definitions.{sighup, sigterm}
use robotd.Directories.{run_dir, pid_file}
use robotd.Posix.{refused}
use robotd.Posix.Memory.{memory, memory-IsPosix, memory-IsFiles}
use robotd.Loader.Level.{to_str, from_str, lower}
use robotd.Loader.Size as Size
use robotd.Loader.Config.{
  load_section, load_thread_count, load_log_name, load_level, load_log_size, load_ram_size,
  announce, load_slaves, load_slave_config, daemon_load_config,
}
use robotd.TcpServer.Config.{Settings, load_config}
use robotd.Cli.Scan.{scan_word, scan_u16, find_process, is_process}
use robotd.Cli.Load.{option_load, locate, save, retry}
use robotd.Cli.Parse.{
  main, parse_options, run_option, no_daemon_process, read_pid, daemon_process, check_saved,
  command,
}
use robotd.Cli.Parse.Running.{HasConfig}
use robotd.Daemon.Start.{made, daemon, daemonize, set_pid_file, cleared}
use robotd.Daemon.Start.Fate.{IsErrno}
use robotd.Daemon.Class.{Daemon, DaemonClass, daemon_class}
use robotd.Program.Main.{robot_daemon}
use robotd.Program.System.{
  System, Call, process_of, Step, Reachable, boots, then, invokes, passes, invoke, launch, leave,
}
use robotd.Program.System.Lock.{Edge, holder}
use robotd.Program.System.Restart.{replacement}
use robotd.Program.System.Daemons.{
  HasNumber, step-holder, reachable-HasNumber, leave-invoke-run_option, leave-invoke-monitor_proc,
}
use robotd.Daemon.Monitor.{running, ended, monitor_proc, first_failure, run, step}
use robotd.Daemon.Reload.{reload_config, first_line}
use robotd.Program.Tests.{turn, last-IsTerm, environment, installed, busy, answers, argv, loader}

abbrev pub d : DaemonClass memory Settings
d = robot_daemon memory environment 0 0

abbrev pub call : List Bytes → ℕ → Call
call arguments pid = record {
  argv = arguments;
  errno = 0;
  answers = record answers { getpid = pid };
}

pub call-IsErrno : (pid : ℕ) → IsErrno (record answers { getpid = pid })
call-IsErrno pid = record {
  fork = omega arith;
  setsid = λ h. cc;
  chdir = λ h. cc;
  close_stdin = λ h. cc;
  close_stdout = λ h. cc;
  close_stderr = λ h. cc;
}

abbrev first : Call
first = call argv 4242

abbrev machine : System memory Settings
machine = record { world = installed; daemons = [] }

booted : Reachable d loader machine
unfolding memory str_eq
booted = boots installed tt

started : Reachable d loader (invoke d loader first machine)
unfolding str_eq
started = then booted (invokes first (call-IsErrno 4242) (omega arith) tt (inl refl))

abbrev object : Daemon Settings
object =
    (d.daemon (codes "/home/a.cfg") run_dir answers
      (main memory argv (process_of first installed)).1.world loader).2

abbrev watched : System memory Settings
watched = record { world = busy; daemons = (4242, object) ∷ [] }

runs : Reachable d loader watched
unfolding invoke launch leave daemon_class daemon daemonize set_pid_file daemon_load_config
    load_section load_thread_count load_log_name load_level from_str to_str lower load_log_size
    load_ram_size Size.size_parse Size.sized Size.scaled Size.match_unit Size.atoi digits
    after_digits decimal announce load_slaves load_slave_config load_config main parse_options
    run_option no_daemon_process option_load locate save retry memory str_eq cleared
runs = then started (passes busy refl refl)

abbrev second : Call
second = call (codes "robotd" ∷ codes "load" ∷ codes "b.cfg" ∷ []) 4300

one_more : Step d loader watched (invoke d loader second watched)
unfolding str_eq memory
one_more =
    invokes second (call-IsErrno 4300) (omega arith) ((codes "1" ∷ [], [], refl), tt) (inl refl)

reachable-HasNumber_example :
    let sys = invoke d loader second watched in
    HasNumber (memory.read sys.world pid_file) sys.daemons
unfolding memory
reachable-HasNumber_example =
    reachable-HasNumber memory environment 0 0 (invoke d loader second watched) memory-IsPosix
      memory-IsFiles (then runs one_more)

step-holder_example : Edge (some 4242) (holder (invoke d loader second watched).daemons)
step-holder_example =
    step-holder memory environment 0 0 watched (invoke d loader second watched) memory-IsPosix
      memory-IsFiles runs one_more

abbrev again : Call
again = call (codes "robotd" ∷ codes "restart" ∷ []) 4300

abbrev third : Call
third = call (codes "robotd" ∷ codes "load" ∷ codes "a.cfg" ∷ []) 4400

-- `CONFIG_LOAD` as the first command left it.
saved-HasConfig :
    HasConfig memory (process_of again busy) (codes "/home/a.cfg\n") b'/' (codes "home/a.cfg")
unfolding memory str_eq scan_word word skip_space
saved-HasConfig = record { readable = refl; named = refl; fits = omega arith }

replaced : (replacement d loader again (codes "/home/a.cfg") busy 4242).0 ≡ made
unfolding daemon_class daemon daemonize set_pid_file daemon_load_config load_section
    load_thread_count load_log_name load_level from_str to_str lower load_log_size load_ram_size
    Size.size_parse Size.sized Size.scaled Size.match_unit Size.atoi digits after_digits decimal
    announce load_slaves load_slave_config load_config memory str_eq cleared
replaced = refl

removable :
    (memory.unlink (replacement d loader again (codes "/home/a.cfg") busy 4242).1 pid_file).0 ≡ none
unfolding daemon_class daemon daemonize set_pid_file daemon_load_config load_section
    load_thread_count load_log_name load_level from_str to_str lower load_log_size load_ram_size
    Size.size_parse Size.sized Size.scaled Size.match_unit Size.atoi digits after_digits decimal
    announce load_slaves load_slave_config load_config memory str_eq cleared
removable = refl

leave-invoke-run_option_example :
    let sys = leave d 4242 (invoke d loader again watched) in
    let s = process_of third sys.world in
    (length sys.daemons ≡ 1)
    × (e : ℕ) × (memory.read sys.world pid_file ≡ refused e)
    × (run_option memory (codes "load") (some (codes "a.cfg")) s
        ≡ no_daemon_process memory (codes "load") (some (codes "a.cfg")) (record s { errno = e }))
unfolding memory str_eq decimal decimal_from to_string
leave-invoke-run_option_example =
    leave-invoke-run_option memory environment 0 0 busy 4242 object again (codes "robotd")
      (codes "/home/a.cfg\n") b'/' (codes "home/a.cfg") third (codes "load") (some (codes "a.cfg"))
      memory-IsPosix memory-IsFiles runs ((codes "1" ∷ [], [], refl), tt) saved-HasConfig refl refl
      replaced (λ h. omega (arith, h)) removable refl

-- After the restart a third command starts a second daemon.
two_daemons :
    length (invoke d loader third (leave d 4242 (invoke d loader again watched))).daemons ≡ 2
unfolding invoke launch leave daemon_class daemon daemonize set_pid_file daemon_load_config
    load_section load_thread_count load_log_name load_level from_str to_str lower load_log_size
    load_ram_size Size.size_parse Size.sized Size.scaled Size.match_unit Size.atoi digits
    after_digits decimal announce load_slaves load_slave_config load_config main parse_options
    run_option no_daemon_process option_load locate save retry memory str_eq cleared read_pid
    daemon_process check_saved command scan_word scan_u16 find_process is_process word skip_space
    to_string
two_daemons = refl

abbrev stop : Call
stop = call (codes "robotd" ∷ codes "stop" ∷ []) 4300

keeps_watching : (d.monitor_proc (λ c. none) (turn sighup ∷ []) object).0 ≡ running
unfolding daemon_class daemon daemonize set_pid_file daemon_load_config load_section
    load_thread_count load_log_name load_level from_str to_str lower load_log_size load_ram_size
    Size.size_parse Size.sized Size.scaled Size.match_unit Size.atoi digits after_digits decimal
    announce load_slaves load_slave_config load_config memory str_eq cleared main parse_options
    run_option no_daemon_process option_load locate save retry monitor_proc first_failure run step
    reload_config first_line
keeps_watching = refl

leave-invoke-monitor_proc_example :
    let stopped = invoke d loader stop watched in
    let sys = leave d 4242 stopped in
    (stopped ≡ record { world = (memory.kill busy 4242 sigterm).1; daemons = (4242, object) ∷ [] })
    × ((d.monitor_proc (λ c. none) (turn sighup ∷ turn sigterm ∷ []) object).0 ≡ ended 0)
    × (sys.daemons ≡ [])
    × (e : ℕ) × (memory.read sys.world pid_file ≡ refused e)
unfolding memory str_eq first_failure decimal decimal_from to_string
leave-invoke-monitor_proc_example =
    leave-invoke-monitor_proc memory environment 0 0 busy 4242 object stop (codes "robotd")
      (codes "/home/a.cfg\n") b'/' (codes "home/a.cfg") (λ c. none) (turn sighup ∷ [])
      (turn sigterm) memory-IsPosix memory-IsFiles runs ((codes "1" ∷ [], [], refl), tt)
      saved-HasConfig refl refl keeps_watching last-IsTerm refl
