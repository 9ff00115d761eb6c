-- ===== src/Program/Tests/System/Renew.antt =====
-- A restart that waits for the daemon that runs.
use robotd.Common.{
  ◌≡◌, refl, codes, pos, [], ◌∷◌, str_eq, digits, after_digits, decimal, decimal_from,
}
use robotd.Common.Decimal.{to_string}
use robotd.Directories.{pid_file}
use robotd.Posix.{opened}
use robotd.Posix.Memory.{memory, memory-IsPosix, memory-IsFiles}
use robotd.Loader.Level.{to_str, from_str, lower}
use robotd.Loader.Size as Size
use robotd.Loader.Config.{
  returned, load_section, load_thread_count, load_log_name, load_level, load_log_size,
  load_ram_size, announce, load_slaves, load_slave_config, daemon_load_config,
}
use robotd.TcpServer.Config.{load_config}
use robotd.Daemon.Start.{made, pid_line, daemon, daemonize, set_pid_file, cleared}
use robotd.Daemon.Class.{daemon_class}
use robotd.Program.System.{invoke_after}
use robotd.Program.System.Renew.{renewed, invoke_after-daemons}
use robotd.Program.Tests.{environment, busy, loader}
use robotd.Program.Tests.System.{d, call-IsErrno, object, watched, runs, again, saved-HasConfig}

renews : (renewed memory environment 0 0 busy 4242 object again b'/' (codes "home/a.cfg")).0 ≡ made
unfolding daemon_class daemon daemonize set_pid_file daemon_load_config load_section
    load_thread_count load_log_name load_level from_str to_str lower load_log_size load_ram_size
    Size.size_parse Size.sized Size.scaled Size.match_unit Size.atoi digits after_digits decimal
    announce load_slaves load_slave_config load_config memory str_eq cleared
renews = refl

invoke_after-daemons_example :
    let after = invoke_after d loader 4242 again watched in
    let new = renewed memory environment 0 0 busy 4242 object again b'/' (codes "home/a.cfg") in
    (after.daemons ≡ (4300, new.2) ∷ [])
    × (memory.read after.world pid_file ≡ opened (pid_line 4300))
    × ((d.load (codes "/home/a.cfg") loader).0 ≡ returned (pos 0))
unfolding memory decimal decimal_from to_string str_eq
invoke_after-daemons_example =
    invoke_after-daemons memory environment 0 0 busy 4242 object again b'/' (codes "home/a.cfg")
      (codes "robotd") (codes "/home/a.cfg\n") memory-IsPosix memory-IsFiles runs
      ((codes "1" ∷ [], [], refl), tt) saved-HasConfig refl refl (call-IsErrno 4300) renews
