-- ===== src/Cli/Parse.antt =====
-- `no_daemon_process` and `parse_options` of daemon/cli_parser.cpp, and `main` of server_main.cpp.
pub mod Status
pub mod Running
pub mod Exclusive
pub mod Stopped
pub mod Vacant
pub mod Frame
pub mod Word
pub mod Alone
pub mod Signals
use robotd.Common.{
  ℕ, ◌++◌, Bytes, codes, ℤ, pos, negsuc, is_negative, is_nonzero, Bool, true, false, ◌||◌, Option,
  none, some, List, [], ◌∷◌, length, ◌==◌, leb, str_eq,
}
use mathlib.Core.Bool.{cond}
use robotd.Definitions.{enoent, sighup, sigterm}
use robotd.Directories.{package_name, slash, etc_conf_dir, pid_file, config_load}
use robotd.Posix.{Os}
use robotd.Cli.State.{
  Process, Message, M, ◌>>=◌, ◌>>◌, pure, if◌then◌else◌, fopen_r, fopen_w, unlink, kill,
  readdir_proc, get_errno, get_config_file, set_config_file, print, complain, usage, load_usage,
  help_text, daemon_stopped, undefined_option, current_config, daemon_runs, stopped_pid,
  no_directory, no_config_load, bad_pid_file, bad_config_load, no_unlink, no_load, no_reload,
  no_restart, no_stop,
}
use robotd.Cli.Options.{option_key, usage_lines, help_lines}
use robotd.Cli.Scan.{scan_u16, scan_word, find_process}
use robotd.Cli.Load.{Exit, ret, fault, as_exit, option_load, make_run_dir, return_errno}

abbrev pub wrong_options : ℤ
wrong_options = pos 1

abbrev pub help_option : ℤ
help_option = pos 2

abbrev pub dont_do_anything : ℤ
dont_do_anything = pos 3

-- The optional file name behind the option: `argv[2]`, if `argc` is 3.
abbrev pub Value : Type 0
Value = Option Bytes

-- What `main` does with the result.
pub data Outcome : Type 0 where
  exits : ℕ → Outcome
  run_daemon : Bytes → Outcome
  crashes : Outcome

module _ (os : Os) where
  abbrev set_value : Value → M os Unit
  set_value none = pure tt
  set_value (some path) = set_config_file os path

  false_parameters : M os Unit
  false_parameters = print os (usage usage_lines)

  undefined : Bytes → M os Exit
  unfolding false_parameters
  undefined arg = do print os (undefined_option arg); false_parameters; pure (ret wrong_options)

  unfoldable pub no_daemon_process : Bytes → Value → M os Exit
  unfolding undefined
  no_daemon_process arg value =
      if str_eq arg (option_key 3)
      then pure (ret dont_do_anything)
      else if str_eq arg (option_key 4)
      then (do print os daemon_stopped; pure (ret dont_do_anything))
      else if str_eq arg (option_key 0) || (str_eq arg (option_key 1) || str_eq arg (option_key 2))
      then (do set_value value; option_load os)
      else undefined arg

  -- A readable `CONFIG_LOAD`: its first word becomes `CONFIG_FILE`. `none` goes on.
  restore : Bytes → M os (Option Exit)
  restore text = if leb 256 (length (scan_word text)) then pure (some fault) else do
    s ← get_config_file os
    set_config_file os (scan_word text)
    elim (scan_word text) [
      | c ∷ path ↦ pure none
      | [] ↦ do
        done ← fopen_w os config_load s
        elim done [
          | false ↦ pure (some fault)
          | true ↦ do complain os bad_config_load; r ← return_errno os; pure (some (ret r))
        ]
    ]

  -- The text that stands in for a missing `CONFIG_LOAD`.
  abbrev pub fresh_line : Bytes
  fresh_line = etc_conf_dir ++ (slash ++ (package_name ++ (slash ++ (config_load ++ codes "\n"))))

  stop_with_errno : M os (Option Exit)
  stop_with_errno = do r ← return_errno os; pure (some (ret r))

  recreate : Bool → M os (Option Exit)
  unfolding stop_with_errno
  recreate false = stop_with_errno
  recreate true = do
    done ← fopen_w os config_load fresh_line
    elim done [ true ↦ pure none | false ↦ do complain os no_config_load; stop_with_errno ]

  unfoldable pub check_saved : M os (Option Exit)
  unfolding restore recreate make_run_dir
  check_saved = do
    saved ← fopen_r os config_load
    e ← get_errno os
    elim saved [
      | some text ↦ restore text
      | none ↦
          if e == enoent
          then (do ready ← make_run_dir os; recreate ready)
          else (do complain os no_directory; stop_with_errno)
    ]

  -- `kill`, and the message of a failure.
  signal_or : ℕ → ℕ → (ℕ → Message) → M os Exit → M os Exit
  signal_or pid sig message next = do
    done ← kill os pid sig
    elim done [ true ↦ next | false ↦ do complain os message; as_exit os (return_errno os) ]

  load_running : ℕ → Exit → M os Exit
  unfolding signal_or
  load_running pid fault = pure fault
  load_running pid (ret r) =
      if is_nonzero r
      then pure (ret r)
      else signal_or pid sighup no_load (pure (ret dont_do_anything))

  -- The last ladder of `parse_options`: a live daemon, whose number is `pid`.
  unfoldable pub command : Bytes → Value → ℕ → M os Exit
  unfolding load_running signal_or undefined
  command arg value pid =
      if str_eq arg (option_key 0)
      then elim value [
        | none ↦ do print os load_usage; pure (ret wrong_options)
        | some path ↦ do set_config_file os path; r ← option_load os; load_running pid r
      ]
      else if str_eq arg (option_key 1)
      then signal_or pid sighup no_reload (pure (ret dont_do_anything))
      else if str_eq arg (option_key 2)
      then (do
        conf ← get_config_file os
        print os (current_config conf)
        signal_or pid sigterm no_restart (pure (ret (pos 0))))
      else if str_eq arg (option_key 3)
      then signal_or pid sigterm no_stop
          (do print os (stopped_pid pid); pure (ret dont_do_anything))
      else undefined arg

  unfoldable pub daemon_process : Bytes → Value → ℕ → M os Exit
  daemon_process arg value pid =
      if str_eq arg (option_key 4)
      then (do print os (daemon_runs pid); pure (ret dont_do_anything))
      else (do
        stopped ← check_saved
        elim stopped [ some e ↦ pure e | none ↦ command arg value pid ])

  -- The PID file names no process: it is removed.
  unfoldable pub drop_pid_file : Bytes → Value → M os Exit
  drop_pid_file arg value = do
    done ← unlink os pid_file
    elim done [
      | true ↦ no_daemon_process arg value
      | false ↦ do complain os no_unlink; as_exit os (return_errno os)
    ]

  unfoldable pub read_pid : Bytes → Value → Option ℕ → M os Exit
  read_pid arg value none = do complain os bad_pid_file; as_exit os (return_errno os)
  read_pid arg value (some pid) = do
    listing ← readdir_proc os
    elim listing [
      | none ↦ pure fault
      | some names ↦
          if find_process pid names then daemon_process arg value pid else drop_pid_file arg value
    ]

  unfoldable pub run_option : Bytes → Value → M os Exit
  run_option arg value =
      if str_eq arg (option_key 5)
      then (do print os (help_text help_lines); pure (ret help_option))
      else (do
        exist ← fopen_r os pid_file
        elim exist [
          | some text ↦ read_pid arg value (scan_u16 text)
          | none ↦ no_daemon_process arg value
        ])

  -- `argv` with the program's name in front; its length is `argc`.
  unfoldable pub parse_options : List Bytes → M os Exit
  unfolding false_parameters
  parse_options (program ∷ arg ∷ []) = run_option arg none
  parse_options (program ∷ arg ∷ path ∷ []) = run_option arg (some path)
  parse_options _ = do false_parameters; pure (ret wrong_options)

  decide : Exit → Process os → Outcome
  decide fault s = crashes
  decide (ret r) s =
      cond (is_negative r) (exits 1) (cond (is_nonzero r) (exits 0) (run_daemon s.config_file))

  unfoldable pub main : List Bytes → Process os → Outcome × Process os
  unfolding decide
  main argv s = let (e, t) = parse_options argv s in (decide e t, t)
