-- ===== src/Daemon/Start/Fate.antt =====
-- When the constructor makes a daemon, and what it leaves otherwise.
use robotd.Common.{
  ◌<◌, ◌%◌, ◌^◌, ◌≡◌, ◌≢◌, Bytes, codes, ℤ, pos, Bool, none, some, List, [], arith, ◌⊎◌,
}
use robotd.Posix.{Os, opened, IsPosix}
use robotd.Loader.Settings.{Env, Root, parsed, Section}
use robotd.Loader.State.{Loader, return, is_some}
use robotd.Loader.Config.{
  Loaded, returned, SlaveLoader, load_section, load_root, load_file, daemon_load_config,
}
use robotd.Loader.Config.Failure.{load_section-Refused}
use robotd.Cli.Scan.{scan_u16}
use robotd.Cli.Scan.Numbers.{scan_u16-to_string}
use robotd.Daemon.Monitor.{in_child}
use robotd.Daemon.Start.{
  Answers, returns, made, aborts, exits, pid_line, cleared, set_pid_file, in_turn, daemonize, start,
  daemon,
}

-- No failing call leaves 0 in `errno`.
pub record IsErrno (a : Answers) : Type 0 where
  pub fork : 0 < a.fork_errno
  pub setsid : a.setsid ≢ some 0
  pub chdir : a.chdir ≢ some 0
  pub close_stdin : a.close_stdin ≢ some 0
  pub close_stdout : a.close_stdout ≢ some 0
  pub close_stderr : a.close_stderr ≢ some 0

module _ (os : Os) (path : Bytes) where
  pub record IsDaemon (a : Answers) (w : os.World) : Type 0 where
    pub forked : a.fork ≡ in_child
    pub session : a.setsid ≡ none
    pub stored : os.read w path ≡ opened (pid_line a.getpid)

  daemonize-IsDaemon :
      IsPosix os
      → (logs : Bool) (a : Answers) (w : os.World) → IsErrno a
      → (daemonize os path logs a w).0 ≡ returns 0
      → IsDaemon a (daemonize os path logs a w).1
  unfolding daemonize in_turn set_pid_file
  daemonize-IsDaemon posix logs a w e h = ground (
    arith,
    e.fork,
    e.setsid,
    e.chdir,
    e.close_stdin,
    e.close_stdout,
    e.close_stderr,
    posix.read_written (cleared os path w) path (pid_line a.getpid),
  )

  start-made :
      {S : Type 0} (posix : IsPosix os) (a : Answers) (w : os.World) (s : Loader S)
      → IsErrno a
      → (start os path a w s).0 ≡ made
      → IsDaemon a (start os path a w s).1
  unfolding start
  start-made posix a w s e h =
      let logs = is_some s.log in
      let (r, v, c) = daemonize os path logs a w in
      ground (arith, daemonize-IsDaemon posix logs a w e)

  pub daemon-made :
      {S : Type 0} (load : Loader S → Loaded × Loader S) (a : Answers) (w : os.World) (s : Loader S)
      → IsPosix os
      → IsErrno a
      → (daemon os path load a w s).0 ≡ made
      → ((load s).0 ≡ returned (pos 0)) × IsDaemon a (daemon os path load a w s).1
  unfolding daemon
  daemon-made load a w s posix e h = let (r, t) = load s in ground (arith, start-made posix a w t e)

  -- On a system that is IsPosix, and if no failing call leaves 0 in errno, the constructor makes
  -- the daemon only in the new process and after a load that returned 0; the command line parser
  -- then finds in the PID file the low sixteen bits of its process number, which is below 2^64.
  pub daemon-scan_u16 :
      {S : Type 0} (load : Loader S → Loaded × Loader S) (a : Answers) (w : os.World) (s : Loader S)
      → IsPosix os
      → IsErrno a
      → a.getpid < 2 ^ 64
      → (daemon os path load a w s).0 ≡ made
      → ((load s).0 ≡ returned (pos 0))
        × (a.fork ≡ in_child)
        × (text : Bytes) × (os.read (daemon os path load a w s).1 path ≡ opened text)
        × (scan_u16 text ≡ some (a.getpid % 2 ^ 16))
  daemon-scan_u16 load a w s posix e small h =
      let (zero_load, d) = daemon-made load a w s posix e h in
      (zero_load, d.forked, pid_line a.getpid, d.stored, scan_u16-to_string a.getpid [] small)

  -- A process that exits in the constructor has not changed the world, unless it is the new
  -- process, which could not write the PID file and exits with 1.
  pub daemon-exits :
      {S : Type 0} (load : Loader S → Loaded × Loader S) (a : Answers) (w : os.World) (s : Loader S)
      (n : ℤ)
      → (daemon os path load a w s).0 ≡ exits n
      → ((daemon os path load a w s).1 ≡ w)
        ⊎ (((set_pid_file os path a.getpid w).0 ≢ none) × (a.fork ≡ in_child) × (n ≡ pos 1))
  unfolding daemon start daemonize in_turn
  daemon-exits load a w s n h = ground arith

-- A first start, with no logger yet, on a configuration whose section Daemon is refused ends by
-- a call through the null pointer log and not by exit.
pub daemon-refused :
    {S : Type 0} (os : Os) (path : Bytes) (a : Answers) (w : os.World) (env : Env) (tag : Bytes)
    (first : SlaveLoader S) (rest : List (SlaveLoader S)) (filename : Bytes) (root : Root)
    (section : Section) (s : Loader S) (n : ℤ)
    → env.read_config filename ≡ parsed root
    → root (codes "Daemon") ≡ some section
    → s.log ≡ none
    → (load_section env tag first rest section s).0 ≡ return n
    → (daemon os path (daemon_load_config env tag first rest filename) a w s).0 ≡ aborts
unfolding daemon daemon_load_config load_file load_root
daemon-refused os path a w env tag first rest filename root section s n file daemon_section null
      refused_by =
    ground (arith, load_section-Refused env tag first rest section s)
