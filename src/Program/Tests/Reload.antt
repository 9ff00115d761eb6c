-- ===== src/Program/Tests/Reload.antt =====
-- A reload of the daemon in the world of the tests, with one slave that logs at another level.
use robotd.Common.{
  ◌≡◌, refl, codes, pos, false, none, some, [], ◌∷◌, str_eq, digits, after_digits, decimal, All,
}
use robotd.Definitions.{sighup}
use robotd.Posix.Memory.{memory}
use robotd.Loader.Level.{warn, to_str, from_str, lower}
use robotd.Loader.Size as Size
use robotd.Loader.Config.{
  returned, load_section, load_thread_count, load_log_name, load_level, load_log_size,
  load_ram_size, announce, load_slaves, load_slave_config, daemon_load_config,
}
use robotd.TcpServer.Config.{Settings, load_config}
use robotd.Daemon.Monitor.{in_parent, signalled, Monitor}
use robotd.Daemon.Monitor as Monitor
use robotd.Daemon.Reload.{reload_config}
use robotd.Daemon.Class as Daemon
use robotd.Daemon.Class.{begun}
use robotd.Master.Services.{service}
use robotd.Master.Work as Work
use robotd.Master.Work.{Master}
use robotd.Master.Work.Levels.{LogsAt}
use robotd.Master.Reload as Reload
use robotd.Master.Reload.{Watch}
use robotd.Program.Reload.{hang_up-LogsAt}
use robotd.Program.Tests.{environment, busy, turn, loader, file-IsOneLine}

abbrev monitor : Monitor Settings
monitor = record (begun 0 0 loader) { pid = in_parent 100; need_start = false }

abbrev master : Master Settings
master = record {
  loader = loader;
  services = service (codes "Server(Slave)") warn none ∷ [];
  threads = 2;
  signo = 0;
  output = [];
}

abbrev one_round : Watch memory
one_round = record { sigwait = some sighup; world = busy }

both_load :
    ((daemon_load_config environment (codes "Daemon") load_config [] (codes "/home/a.cfg") loader).0
      ≡ returned (pos 0))
    × ((daemon_load_config environment
          (codes "Master")
          load_config
          []
          (codes "/home/a.cfg")
          loader).0
        ≡ returned (pos 0))
unfolding daemon_load_config load_section load_thread_count load_log_name load_level from_str to_str
    lower load_log_size load_ram_size Size.size_parse Size.sized Size.scaled Size.match_unit
    Size.atoi digits after_digits decimal announce load_slaves load_slave_config load_config str_eq
both_load = (refl, refl)

hang_up-LogsAt_example :
    let d =
      Monitor.step
        (Daemon.round_of
          (reload_config memory environment (codes "Daemon") load_config [])
          (turn sighup))
        monitor in
    let c = Work.step (Reload.round_of memory environment load_config [] one_round) master in
    (d.1.events ≡ signalled 100 sighup ∷ [])
    × (d.1.loader
        ≡ (daemon_load_config environment
            (codes "Daemon")
            load_config
            []
            (codes "/home/a.cfg")
            loader).1)
    × (c.1.loader
        ≡ (daemon_load_config environment
            (codes "Master")
            load_config
            []
            (codes "/home/a.cfg")
            loader).1)
    × All (LogsAt c.1.loader.lev) c.1.services
unfolding memory str_eq
hang_up-LogsAt_example =
    hang_up-LogsAt memory environment (codes "Daemon") load_config [] (codes "/home/a.cfg")
      (turn sighup) one_round monitor master 100 (pos 0) (pos 0) refl refl file-IsOneLine refl refl
      refl refl both_load.0 both_load.1
