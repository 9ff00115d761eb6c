-- ===== src/Cli/Load.antt =====
-- `option_load` of daemon/cli_parser.cpp: find the configuration file, and leave its path in the
-- file `CONFIG_LOAD` for the daemon.
pub mod Saved
pub mod Frame
pub mod Word
use robotd.Common.{ℕ, ◌++◌, Bytes, codes, ℤ, pos, Bool, true, false, Option, none, some, ◌==◌}
use robotd.Definitions.{enoent}
use robotd.Directories.{slash, etc_conf_dir, run_conf_dir, config_load}
use robotd.Posix.{Os}
use robotd.Cli.State.{
  M, ◌>>=◌, ◌>>◌, pure, if◌then◌else◌, fopen_r, fopen_w, stat, mkdir, getcwd, get_errno,
  get_config_file, set_config_file, complain, no_config, no_directory, no_config_load,
}

-- What `parse_options` and `option_load` return. `fault`: an exception of a null string, or undefined
-- behaviour, a write past `tmp[256]`, a `fprintf` to a null file or a `readdir` on a null directory.
pub data Exit : Type 0 where
  ret : ℤ → Exit
  fault : Exit

-- A path below a directory.
abbrev pub below : Bytes → Bytes → Bytes
below dir path = dir ++ (slash ++ path)

module _ (os : Os) where
  -- `return errno;`
  abbrev pub return_errno : M os ℤ
  return_errno = do e ← get_errno os; pure (pos e)

  -- `false` if /etc has no such file either.
  unfoldable pub locate : Bytes → Bytes → Option Bytes → M os Bool
  locate dir conf (some _) = do set_config_file os (below dir conf); pure true
  locate dir conf none = do
    set_config_file os (below etc_conf_dir conf)
    again ← fopen_r os (below etc_conf_dir conf)
    elim again [ some _ ↦ pure true | none ↦ do complain os no_config; pure false ]

  -- `stat` and `mkdir` on the directory of the auxiliary file.
  unfoldable pub make_run_dir : M os Bool
  make_run_dir = do
    there ← stat os run_conf_dir
    elim there [
      | true ↦ pure true
      | false ↦ do
        made ← mkdir os run_conf_dir
        elim made [ true ↦ pure true | false ↦ do complain os no_directory; pure false ]
    ]

  save_again : Bytes → Bool → M os ℤ
  save_again line false = return_errno
  save_again line true = do
    done ← fopen_w os config_load line
    elim done [ true ↦ pure (pos 0) | false ↦ do complain os no_config_load; return_errno ]

  -- The first attempt failed with ENOENT: make the directory and try once more.
  unfoldable pub retry : Bytes → M os ℤ
  unfolding make_run_dir save_again
  retry line = do ready ← make_run_dir; save_again line ready

  unfoldable pub save : M os ℤ
  save = do
    conf ← get_config_file os
    done ← fopen_w os config_load (conf ++ codes "\n")
    e ← get_errno os
    elim done [
      | true ↦ pure (pos 0)
      | false ↦
          if e == enoent
          then retry (conf ++ codes "\n")
          else (do complain os no_directory; return_errno)
    ]

  abbrev pub as_exit : M os ℤ → M os Exit
  as_exit m = do r ← m; pure (ret r)

  unfoldable pub option_load : M os Exit
  option_load = do
    conf ← get_config_file os
    dir ← getcwd os
    elim dir [
      | none ↦ pure fault
      | some d ↦ do
        first ← fopen_r os (below d conf)
        found ← locate d conf first
        elim found [ true ↦ as_exit save | false ↦ as_exit return_errno ]
    ]
