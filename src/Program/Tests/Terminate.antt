-- ===== src/Program/Tests/Terminate.antt =====
-- The end of the daemon in the world of the tests, whose Master process has reloaded before.
use robotd.Common.{
  ℕ, ◌≡◌, refl, Bytes, codes, true, false, Option, none, some, [], ◌∷◌, str_eq, digits,
  after_digits, decimal,
}
use robotd.Definitions.{sighup, sigterm, child_need_terminate}
use robotd.Posix.Memory.{memory}
use robotd.Loader.Level.{to_str, from_str, lower}
use robotd.Loader.Size as Size
use robotd.Loader.State.{Loader}
use robotd.Loader.Config.{
  load_section, load_thread_count, load_log_name, load_level, load_log_size, load_ram_size,
  announce, load_slaves, load_slave_config, daemon_load_config,
}
use robotd.TcpServer.Config.{Settings, load_config}
use robotd.TcpServer.Server.{tcp_server}
use robotd.Daemon.Monitor.{in_parent, ended, signalled, Monitor, first_failure}
use robotd.Daemon.Monitor as Monitor
use robotd.Daemon.Reload.{reload_config, first_line}
use robotd.Daemon.Class.{begun}
use robotd.Daemon.Class as Daemon
use robotd.Master.Services.{
  Slave, register_all_services, update_all_loggers, set_level, run_all_services,
}
use robotd.Master.Work.{Master, Outcome, running, exited, work_proc, loop, step, reload}
use robotd.Master.Work as Work
use robotd.Master.Class.{master_class, Shift, child}
use robotd.Master.Class.Stops.{one_more}
use robotd.Master.Reload.{Watch, load_saved}
use robotd.Master.Reload as Reload
use robotd.Program.Terminate.{terminate-child}
use robotd.Program.Tests.{environment, busy, turn, loader}

abbrev monitor : Monitor Settings
monitor = record (begun 0 0 loader) { pid = in_parent 100; need_start = false }

abbrev logging : Loader Settings
logging = record loader { sink = some (record { base = codes "/var/log/robot"; max_size = 40960 }) }

abbrev slave : Slave
slave = record {
  tag = codes "Server(Slave)";
  construct =
      tcp_server false
        (record { resolve = true; opening = none; set_option = true; bind = none; listen = true });
}

abbrev looking : ℕ → Watch memory
looking signal = record { sigwait = some signal; world = busy }

abbrev shift : Shift Settings
shift = record {
  setrlimit = λ limit. none;
  answer = λ call. none;
  rounds = Reload.round_of memory environment load_config [] (looking sighup) ∷ [];
}

abbrev demangled : Bytes → Option Bytes
demangled name = none

abbrev before : Option (Outcome × Master Settings)
before = child (master_class false demangled) (slave ∷ []) 0 shift logging

abbrev state : Option (Outcome × Master Settings) → Master Settings
state none = record { loader = loader; services = []; threads = 0; signo = 0; output = [] }
state (some (o, m)) = m

works : before ≡ some (running, state before)
unfolding child Work.master master_class work_proc first_failure register_all_services loop step
    reload update_all_loggers set_level run_all_services tcp_server load_saved memory str_eq
    first_line daemon_load_config load_section load_thread_count load_log_name load_level from_str
    to_str lower load_log_size load_ram_size Size.size_parse Size.sized Size.scaled Size.match_unit
    Size.atoi digits after_digits decimal announce load_slaves load_slave_config load_config
works = refl

terminate-child_example :
    let reloads = reload_config memory environment (codes "Daemon") load_config [] in
    let d = Monitor.step (Daemon.round_of reloads (turn sigterm)) monitor in
    let after =
      one_more shift (Reload.round_of memory environment load_config [] (looking sigterm)) in
    (d.0 ≡ ended 0)
    × (d.1.events ≡ signalled 100 sigterm ∷ [])
    × (n : Master Settings) × (child (master_class false demangled) (slave ∷ []) 0 after logging
        ≡ some (exited child_need_terminate, n))
    × (n.services ≡ (state before).services)
    × (n.loader ≡ (state before).loader)
terminate-child_example =
    terminate-child memory environment (codes "Daemon") load_config [] false demangled
      (turn sigterm) (looking sigterm) monitor 100 (slave ∷ []) 0 shift logging (state before) refl
      refl refl refl works
