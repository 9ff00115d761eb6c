-- ===== src/Daemon/Start.antt =====
-- The constructor, `daemonize`, `set_pid_file` and the destructor of daemon/daemon_impl.hpp.
pub mod Fate
pub mod Found
pub mod Frame
mod Tests
use robotd.Common.{
  ℕ, ◌++◌, Bytes, codes, ℤ, pos, is_nonzero, Bool, true, false, Option, none, some, List, [], ◌∷◌,
  ltb,
}
use robotd.Common as Common
use robotd.Common.Decimal.{to_string}
use robotd.Directories.{slash, package_name}
use robotd.Posix.{Os, Opened, opened, refused}
use robotd.Loader.State.{Loader, is_some}
use robotd.Loader.Config.{Loaded, returned, thrown}
use robotd.Daemon.Monitor.{Forked, fork_failed, in_child, in_parent}

-- `pid_dir+"/"+PACKAGE+".pid"`
abbrev pub pid_path : Bytes → Bytes
pid_path pid_dir = pid_dir ++ (slash ++ (package_name ++ codes ".pid"))

-- What the calls of `daemonize` answer (`umask`, which cannot fail, is left out); `some e` is a failure that sets `errno` to `e`, which is also
-- the error number of a failed `fork`.
pub record Answers : Type 0 where
  pub fork : Forked
  pub fork_errno : ℕ
  pub setsid : Option ℕ
  pub chdir : Option ℕ
  pub close_stdin : Option ℕ
  pub close_stdout : Option ℕ
  pub close_stderr : Option ℕ
  pub getpid : ℕ

-- The messages on `cerr`, with the error number whose text they end with.
pub data Complaint : Type 0 where
  start_failed no_session no_root no_stdin no_stdout no_stderr : ℕ → Complaint

-- `daemonize` returns, or ends the process by `exit`, or by a call through the null pointer `log`.
pub data Daemonized : Type 0 where
  crashes : Daemonized
  returns : ℕ → Daemonized
  quits : ℕ → Daemonized

-- The constructor makes the daemon; or the process ends by `exit`, or by an exception or a call
-- through the null pointer `log`.
pub data Made : Type 0 where
  made aborts : Made
  exits : ℤ → Made

-- `fprintf(f, "%u\n", getpid())`
abbrev pub pid_line : ℕ → Bytes
pid_line pid = to_string pid ++ codes "\n"

abbrev calls : Answers → List (Option ℕ × (ℕ → Complaint))
calls a =
    (a.setsid, no_session)
    ∷ (a.chdir, no_root)
    ∷ (a.close_stdin, no_stdin)
    ∷ (a.close_stdout, no_stdout)
    ∷ (a.close_stderr, no_stderr)
    ∷ []

abbrev after_daemonize : Daemonized → Made
after_daemonize (returns e) = Common.if◌then◌else◌ (ltb 0 e) (exits (pos 1)) made
after_daemonize (quits n) = exits (pos n)
after_daemonize crashes = aborts

-- `log->info` at the end of the constructor.
abbrev logged : Bool → Made → Made
logged logs made = Common.if◌then◌else◌ logs made aborts
logged logs aborts = aborts
logged logs (exits n) = exits n

module _ (os : Os) (path : Bytes) where
  -- The old file is removed, if it can be read; whether that succeeds is not looked at.
  unfoldable pub cleared : os.World → os.World
  cleared w = elim (os.read w path) [ opened text ↦ (os.unlink w path).1 | refused e ↦ w ]

  unfoldable pub set_pid_file : ℕ → os.World → Option ℕ × os.World
  set_pid_file pid w = os.write (cleared w) path (pid_line pid)

  -- A failure of `set_pid_file` goes to the log and ends the process.
  abbrev quit_or_return : Bool → Option ℕ × os.World → Daemonized × os.World × List Complaint
  quit_or_return logs (none, w) = (returns 0, w, [])
  quit_or_return logs (some e, w) = (Common.if◌then◌else◌ logs (quits 1) crashes, w, [])

  -- The calls in turn up to the first that fails, and then the PID file.
  in_turn :
      Bool
      → List (Option ℕ × (ℕ → Complaint))
      → ℕ
      → os.World
      → Daemonized × os.World × List Complaint
  in_turn logs [] pid w = quit_or_return logs (set_pid_file pid w)
  in_turn logs ((none, c) ∷ rest) pid w = in_turn logs rest pid w
  in_turn logs ((some e, c) ∷ rest) pid w = (returns e, w, c e ∷ [])

  unfoldable pub daemonize : Bool → Answers → os.World → Daemonized × os.World × List Complaint
  unfolding in_turn
  daemonize logs a w = elim a.fork [
    | fork_failed ↦ (returns a.fork_errno, w, start_failed a.fork_errno ∷ [])
    | in_child ↦ in_turn logs (calls a) a.getpid w
    | in_parent p ↦ (quits 0, w, [])
  ]

  module _ {S : Type 0} where
    start : Answers → os.World → Loader S → Made × os.World × Loader S
    start a w s =
        let logs = is_some s.log in
        let (r, v, c) = daemonize logs a w in (logged logs (after_daemonize r), v, s)

    -- The member `log` is used in both branches: for the error, and after `daemonize`.
    unfoldable pub daemon :
        (Loader S → Loaded × Loader S) → Answers → os.World → Loader S → Made × os.World × Loader S
    unfolding start
    daemon load a w s =
        let (r, t) = load s in
        elim r [
          | thrown ↦ (aborts, w, t)
          | returned n ↦
              Common.if◌then◌else◌ (is_nonzero n)
                (Common.if◌then◌else◌ (is_some t.log) (exits n) aborts, w, t) (start a w t)
        ]

  -- The destructor, which removes the PID file.
  abbrev pub destroy : os.World → os.World
  destroy w = (os.unlink w path).1
