-- ===== src/Daemon/Start/Found.antt =====
-- The daemon that was started and the command line parser: no second daemon.
use robotd.Common.{
  ℕ, ◌<◌, ◌^◌, ◌≡◌, ◌≢◌, refl, Bytes, true, false, some, List, [], ◌∷◌, ◌++◌, arith, str_eq, ap,
  ◌∙◌,
}
use robotd.Common.Decimal.{to_string}
use robotd.Directories.{pid_file, run_dir}
use robotd.Posix.{Os, opened, IsPosix}
use robotd.Loader.State.{Loader}
use robotd.Loader.Config.{Loaded}
use robotd.Cli.State.{Process}
use robotd.Cli.Options.{option_key}
use robotd.Cli.Scan.{find_process}
use robotd.Cli.Scan.Numbers.{scan_u16-to_string, is_process-to_string}
use robotd.Cli.Parse.{main, run_daemon}
use robotd.Cli.Parse.Running.{IsLive, HasConfig}
use robotd.Cli.Parse.Exclusive.{main-exclusive}
use robotd.Daemon.Start.{Answers, made, daemon, pid_path, pid_line}
use robotd.Daemon.Start.Fate.{IsErrno, daemon-made}

find_process-append :
    (pid : ℕ) (before after : List Bytes)
    → find_process pid (before ++ to_string pid ∷ after) ≡ true
unfolding find_process
find_process-append pid [] after = ground (arith, (is_process-to_string pid pid).1 refl)
find_process-append pid (name ∷ before) after = ground (arith, find_process-append pid before after)

-- The command line parser finds a daemon whose number stands in the PID file and in /proc.
pub found :
    {os : Os} (s : Process os) (pid : ℕ) (before after : List Bytes)
    → pid < 2 ^ 16
    → os.read s.world pid_file ≡ opened (pid_line pid)
    → os.proc s.world ≡ some (before ++ to_string pid ∷ after)
    → IsLive os s (pid_line pid) pid
found s pid before after small stored listed = record {
  readable = stored;
  numbered = scan_u16-to_string pid [] (omega (arith, small)) ∙ ap some (omega (arith, small));
  names = before ++ to_string pid ∷ after;
  opens = listed;
  listed = find_process-append pid before after;
}

-- On a system that is IsPosix, once the constructor has made the daemon with the PID file of
-- the default directory, as long as that file is the one it left, /proc lists its process
-- number, which is below 2^16, and CONFIG_LOAD holds a path that fits the buffer, no command
-- line whose option is not restart makes main start a second daemon, whatever system calls
-- fail.
pub daemon-main :
    {S : Type 0} (os : Os) (load : Loader S → Loaded × Loader S) (a : Answers) (w : os.World)
    (l : Loader S) (s : Process os) (before after : List Bytes) (saved : Bytes) (c : ℕ)
    (path : Bytes) (program arg : Bytes) (rest : List Bytes) (file : Bytes)
    → IsPosix os
    → IsErrno a
    → a.getpid < 2 ^ 16
    → (daemon os (pid_path run_dir) load a w l).0 ≡ made
    → os.read s.world pid_file ≡ os.read (daemon os (pid_path run_dir) load a w l).1 pid_file
    → os.proc s.world ≡ some (before ++ to_string a.getpid ∷ after)
    → HasConfig os s saved c path
    → str_eq arg (option_key 2) ≡ false
    → (main os (program ∷ arg ∷ rest) s).0 ≢ run_daemon file
daemon-main os load a w l s before after saved c path program arg rest file posix errno small starts
      kept listed config h =
    let d = (daemon-made os (pid_path run_dir) load a w l posix errno starts).1 in
    let live = found s a.getpid before after small (kept ∙ d.stored) listed in
    main-exclusive os posix s (pid_line a.getpid) a.getpid live saved c path config program arg rest
      file h
