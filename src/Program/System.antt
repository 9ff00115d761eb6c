-- ===== src/Program/System.antt =====
-- Several processes of robotd on one machine: command lines, each of which may become a daemon, and the
-- daemons that run, which share the PID file and `CONFIG_LOAD`.
pub mod Alone
pub mod Single
pub mod Daemons
pub mod Restart
pub mod Renew
pub mod Stop
pub mod Lock
pub mod Race
use robotd.Common.{
  ℕ, ◌<◌, ◌^◌, ◌≡◌, ◌⊎◌, ◌++◌, Bytes, Bool, false, Option, none, some, List, [], ◌∷◌, All, ◌==◌,
  if◌then◌else◌, str_eq,
}
use robotd.Common.Decimal.{to_string}
use robotd.Directories.{run_dir, pid_file, config_load, default_config_file}
use robotd.Posix.{Os}
use robotd.Loader.State.{Loader}
use robotd.Cli.State.{Process}
use robotd.Cli.Options.{option_key}
use robotd.Cli.Load.Word.{Saves}
use robotd.Cli.Parse.{run_daemon}
use robotd.Cli.Parse.Alone.{is_restart}
use robotd.Cli.Parse as Cli
use robotd.Daemon.Start.{Answers, made, aborts, exits}
use robotd.Daemon.Start.Fate.{IsErrno}
use robotd.Daemon.Class.{Daemon, DaemonClass}

-- The world, and the daemons that run, each with its process number.
pub record System (os : Os) (S : Type 0) : Type 0 where
  pub world : os.World
  pub daemons : List (ℕ × Daemon S)

-- A process that is started: its arguments, `errno`, and what the calls of the constructor answer if it
-- comes to that. Of the two processes that `daemonize` leaves, the one goes on that `fork` says.
pub record Call : Type 0 where
  pub argv : List Bytes
  pub errno : ℕ
  pub answers : Answers

abbrev pub process_of : {os : Os} → Call → os.World → Process os
process_of call w = record {
  world = w;
  errno = call.errno;
  config_file = default_config_file;
  output = [];
}

-- The names in /proc have the number of every daemon.
abbrev pub Listed : {S : Type 0} → Option (List Bytes) → List (ℕ × Daemon S) → Type 0
Listed names daemons =
    All
      (λ x.
        (before : List Bytes) × (after : List Bytes) × (names
          ≡ some (before ++ to_string x.0 ∷ after)))
      daemons

module _ {S : Type 0} where
  abbrev pub the_daemon : ℕ → List (ℕ × Daemon S) → Option (Daemon S)
  the_daemon p [] = none
  the_daemon p ((q, o) ∷ rest) = if p == q then some o else the_daemon p rest

  abbrev pub without : ℕ → List (ℕ × Daemon S) → List (ℕ × Daemon S)
  without p [] = []
  without p ((q, o) ∷ rest) = if p == q then rest else (q, o) ∷ without p rest

module _ {os : Os} {S : Type 0} (d : DaemonClass os S) where
  -- `monitor_proc` of a daemon has returned, and `main` destroys the object.
  unfoldable pub leave : ℕ → System os S → System os S
  leave p sys = elim (the_daemon p sys.daemons) [
    | none ↦ sys
    | some o ↦ record { world = d.destroy o sys.world; daemons = without p sys.daemons }
  ]

-- The class of daemons, and the first values of the static members in each process.
module _ {os : Os} {S : Type 0} (d : DaemonClass os S) (first : Loader S) where
  -- The constructor.
  unfoldable pub launch : Bytes → Answers → os.World → List (ℕ × Daemon S) → System os S
  launch file a w daemons =
      let (m, v, o) = d.daemon file run_dir a w first in
      elim m [
        | made ↦ record { world = v; daemons = (a.getpid, o) ∷ daemons }
        | aborts ↦ record { world = v; daemons = daemons }
        | exits n ↦ record { world = v; daemons = daemons }
      ]

  -- What `main` does behind the command line.
  settle : Cli.Outcome → Answers → System os S → System os S
  settle (Cli.exits n) a sys = sys
  settle Cli.crashes a sys = sys
  settle (run_daemon file) a sys = launch file a sys.world sys.daemons

  unfoldable pub invoke : Call → System os S → System os S
  unfolding settle
  invoke call sys =
      let (o, t) = Cli.main os call.argv (process_of call sys.world) in
      settle o call.answers (record sys { world = t.world })

  -- Two commands at once: each has read the PID file before either goes on.
  unfoldable pub invoke_both : Call → Call → System os S → System os S
  unfolding settle
  invoke_both a b sys =
      let (o, t) = Cli.main os a.argv (process_of a sys.world) in
      let (q, u) = Cli.main os b.argv (process_of b t.world) in
      settle q b.answers (settle o a.answers (record sys { world = u.world }))

  -- A command that goes on only when the daemon `p` has ended.
  unfoldable pub invoke_after : ℕ → Call → System os S → System os S
  unfolding settle
  invoke_after p call sys =
      let (o, t) = Cli.main os call.argv (process_of call sys.world) in
      settle o call.answers (leave d p (record sys { world = t.world }))

  -- Time passes, which leaves the two files alone; a command runs, other than a restart of a daemon that
  -- runs; a daemon ends, or is killed.
  pub data Step : System os S → System os S → Type 0 where
    passes :
        {sys : System os S} (w : os.World)
        → os.read w pid_file ≡ os.read sys.world pid_file
        → os.read w config_load ≡ os.read sys.world config_load
        → Step sys (record sys { world = w })
    invokes :
        {sys : System os S} (call : Call)
        → IsErrno call.answers
        → call.answers.getpid < 2 ^ 16
        → Listed (os.proc sys.world) sys.daemons
        → (is_restart call.argv ≡ false) ⊎ (sys.daemons ≡ [])
        → Step sys (invoke call sys)
    leaves : {sys : System os S} (p : ℕ) → Step sys (leave d p sys)
    dies : {sys : System os S} (p : ℕ) → Step sys (record sys { daemons = without p sys.daemons })

  -- From a machine on which no daemon runs, by such steps, and by commands, a restart among them, that go
  -- on only when the daemon that ran has ended.
  pub data Reachable : System os S → Type 0 where
    boots : (w : os.World) → Saves os w → Reachable (record { world = w; daemons = [] })
    then : {sys next : System os S} → Reachable sys → Step sys next → Reachable next
    renews :
        {w : os.World} {p : ℕ} {o : Daemon S} (call : Call)
        → Reachable (record { world = w; daemons = (p, o) ∷ [] })
        → IsErrno call.answers
        → call.answers.getpid < 2 ^ 16
        → Reachable (invoke_after p call (record { world = w; daemons = (p, o) ∷ [] }))
