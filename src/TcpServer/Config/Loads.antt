-- ===== src/TcpServer/Config/Loads.antt =====
-- The loads of the daemon that server_main.cpp makes, whose slave is the TCP server.
use robotd.Common.{Bytes, codes, List, [], arith}
use robotd.Loader.Settings.{Env}
use robotd.Loader.Config.Valid.{IsValid}
use robotd.Loader.Class.{first_state}
use robotd.Loader.Class.History.{loads, loads-first_state}
use robotd.Loader.Class.Slaves.{KeepsSlave, loads-KeepsSlave}
use robotd.TcpServer.Config.{defaults, load_config, IsPort, load_config-IsPort}

load_config-KeepsSlave : KeepsSlave (λ s. IsPort s.port) load_config
load_config-KeepsSlave = record { kept = load_config-IsPort }

-- From the values that the static members have at first, after any loads of the daemon with the
-- TCP server for a slave, each with a file and surroundings of its own and whether it succeeds
-- or fails, the thread count lies in 1 to 65534, no level is off, there is a logger once errors
-- go to the log file, and the port lies in 1 to 65535.
pub loads-defaults :
    (history : List (Env × Bytes))
    → let s = loads (codes "Daemon") load_config [] history (first_state defaults) in
      IsValid s × IsPort s.slaves.port
loads-defaults history = (
  loads-first_state (codes "Daemon") load_config [] history defaults,
  loads-KeepsSlave (λ s. IsPort s.port) (codes "Daemon") load_config [] history
      (first_state defaults) (load_config-KeepsSlave, tt) (omega arith),
)
