-- ===== src/Program/Tests/Orphan.antt =====
-- A daemon whose child has ended and cannot be started again.
use robotd.Common.{◌≡◌, refl, codes, none, true, [], ◌∷◌, str_eq, digits, after_digits, decimal}
use robotd.Definitions.{sigchld}
use robotd.Posix.Memory.{memory, memory-IsPosix}
use robotd.Loader.Level.{to_str, from_str, lower}
use robotd.Loader.Size as Size
use robotd.Loader.Config.{
  load_section, load_thread_count, load_log_name, load_level, load_log_size, load_ram_size,
  announce, load_slaves, load_slave_config, daemon_load_config,
}
use robotd.TcpServer.Config.{load_config}
use robotd.Cli.Load.{option_load, locate, save, retry}
use robotd.Cli.Parse.{main, parse_options, run_option, no_daemon_process}
use robotd.Daemon.Monitor.{fork_failed, first_failure, run, step, monitor_proc}
use robotd.Daemon.Start.{daemon, daemonize, set_pid_file, cleared}
use robotd.Daemon.Class.{Turn, daemon_class}
use robotd.Program.{Day, still_running, status, finish, serve, program}
use robotd.Program.Life.{and_then}
use robotd.Program.Main.{server_main}
use robotd.Program.Orphan.{at_the_end, server_main-unforked}
use robotd.Program.Tests.{environment, busy, answers, turn, argv, process, begins}

-- The child ends, with a status that lets the daemon go on.
abbrev short_day : Day memory
short_day = record {
  answers = answers;
  setup = λ call. none;
  turns = turn sigchld ∷ [];
  end_world = busy;
}

abbrev last : Turn memory
last = record (turn sigchld) { fork = fork_failed }

watches :
    ((server_main memory environment 0 0 argv short_day process).0 ≡ still_running)
    × ((at_the_end memory environment 0 0 argv short_day process
          (codes "/home/a.cfg")).monitor.need_start
        ≡ true)
unfolding server_main program serve finish daemon_class daemon daemonize set_pid_file cleared
    monitor_proc first_failure run step daemon_load_config load_section load_thread_count
    load_log_name load_level from_str to_str lower load_log_size load_ram_size Size.size_parse
    Size.sized Size.scaled Size.match_unit Size.atoi digits after_digits decimal announce
    load_slaves load_slave_config load_config main parse_options run_option no_daemon_process
    option_load locate save retry memory str_eq
watches = (refl, refl)

server_main-unforked_example :
    server_main memory environment 0 0 argv (and_then short_day last) process ≡ (status 1, busy)
unfolding first_failure
server_main-unforked_example =
    server_main-unforked memory environment 0 0 argv short_day process (codes "/home/a.cfg") last
      memory-IsPosix begins refl watches.0 watches.1 refl
