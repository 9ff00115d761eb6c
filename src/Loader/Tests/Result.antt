-- ===== src/Loader/Tests/Result.antt =====
-- The whole result of a load of cfg/daemon.cfg.
use robotd.Common.{◌↔◌, ◌≡◌, codes, pos, []}
use robotd.Loader.Config.{returned, daemon_load_config}
use robotd.Loader.Config.Succeeds.{Succeeds, daemon_load_config_iff}
use robotd.TcpServer.Config.{load_config}
use robotd.Loader.Tests.{config, environment, initial}

daemon_load_config_iff_example :
    let env = environment (config (codes "Info") 2 4444) in
    ((daemon_load_config env (codes "Daemon") load_config [] (codes "a.cfg") initial).0
      ≡ returned (pos 0))
    ↔ Succeeds env (codes "Daemon") load_config [] (codes "a.cfg") initial
daemon_load_config_iff_example =
    let env = environment (config (codes "Info") 2 4444) in
    daemon_load_config_iff env (codes "Daemon") load_config [] (codes "a.cfg") initial
