-- ===== src/Master/Reload.antt =====
-- How the Master process finds its configuration: `reload_config` of daemon/master_impl.hpp reads the path
-- from `CONFIG_LOAD`, as that of the daemon does.
use robotd.Common.{ℕ, codes, Option, List}
use robotd.Directories.{config_load}
use robotd.Posix.{Os}
use robotd.Loader.Settings.{Env}
use robotd.Loader.State.{Loader}
use robotd.Loader.Config.{Loaded, SlaveLoader, daemon_load_config}
use robotd.Daemon.Reload.{restored}
use robotd.Master.Work.{Round}

-- A round of the loop: the signal, and the world in which a reload finds `CONFIG_LOAD`.
pub record Watch (os : Os) : Type 0 where
  pub sigwait : Option ℕ
  pub world : os.World

module _ (os : Os) (env : Env) {S : Type 0} (first : SlaveLoader S)
    (rest : List (SlaveLoader S)) where
  -- The object has the name "Master".
  unfoldable pub load_saved : os.World → Loader S → Loaded × Loader S
  load_saved w l =
      daemon_load_config env (codes "Master") first rest (restored (os.read w config_load)) l

  abbrev pub round_of : Watch os → Round S
  round_of r = record { sigwait = r.sigwait; load = load_saved r.world }
