-- ===== src/Program/Tests/Race.antt =====
-- Two commands `load` at once, in the world of the tests.
use robotd.Common.{◌≡◌, refl, codes, pos, [], length, str_eq, digits, after_digits, decimal}
use robotd.Directories.{pid_file}
use robotd.Posix.{opened}
use robotd.Posix.Memory.{memory, memory-IsPosix, memory-IsFiles}
use robotd.Loader.Level.{to_str, from_str, lower}
use robotd.Loader.Size as Size
use robotd.Loader.Config.{
  load_section, load_thread_count, load_log_name, load_level, load_log_size, load_ram_size,
  announce, load_slaves, load_slave_config, daemon_load_config,
}
use robotd.TcpServer.Config.{Settings, load_config}
use robotd.Cli.Load.{ret, option_load, locate, save, retry}
use robotd.Daemon.Start.{made, pid_line, daemon, daemonize, set_pid_file, cleared}
use robotd.Daemon.Class.{daemon_class}
use robotd.Program.System.{System, Call, invoke_both}
use robotd.Program.System.Race.{one_load, other_load, one_made, other_made, invoke_both-daemons}
use robotd.Program.Tests.{environment, installed, argv, loader}
use robotd.Program.Tests.System.{d, call, call-IsErrno}

abbrev machine : System memory Settings
machine = record { world = installed; daemons = [] }

abbrev one : Call
one = call argv 4242

abbrev other : Call
other = call argv 4400

both_load :
    let file = codes "a.cfg" in
    ((one_load memory environment 0 0 one other file file installed 2).0 ≡ ret (pos 0))
    × ((other_load memory environment 0 0 one other file file installed 2).0 ≡ ret (pos 0))
unfolding option_load locate save retry memory str_eq
both_load = (refl, refl)

both_made :
    let file = codes "a.cfg" in
    ((one_made memory environment 0 0 one other file file installed 2).0 ≡ made)
    × ((other_made memory environment 0 0 one other file file installed 2).0 ≡ made)
unfolding daemon_class daemon daemonize set_pid_file daemon_load_config load_section
    load_thread_count load_log_name load_level from_str to_str lower load_log_size load_ram_size
    Size.size_parse Size.sized Size.scaled Size.match_unit Size.atoi digits after_digits decimal
    announce load_slaves load_slave_config load_config memory str_eq cleared option_load locate save
    retry
both_made = (refl, refl)

invoke_both-daemons_example :
    let sys = invoke_both d loader one other machine in
    (length sys.daemons ≡ 2) × (memory.read sys.world pid_file ≡ opened (pid_line 4400))
unfolding memory str_eq
invoke_both-daemons_example =
    invoke_both-daemons memory environment 0 0 one other (codes "a.cfg") (codes "a.cfg") installed 2
      (codes "robotd") (codes "robotd") memory-IsPosix memory-IsFiles (call-IsErrno 4400) refl refl
      refl both_load.0 both_load.1 both_made.0 both_made.1
