-- ===== src/Program/System/Restart.antt =====
-- `restart` while a daemon runs: the new daemon and the end of the old one.
use robotd.Common.{ℕ, ◌≡◌, ◌≢◌, refl, ap, ◌∙◌, Bytes, none, List, [], ◌∷◌, arith}
use robotd.Definitions.{sigterm}
use robotd.Directories.{run_dir, pid_file}
use robotd.Posix.{Os, IsPosix, refused}
use robotd.Loader.State.{Loader}
use robotd.Cli.Options.{option_key}
use robotd.Cli.Parse.{run_daemon, main}
use robotd.Cli.Parse.Running.{HasConfig}
use robotd.Cli.Parse.Signals.{restart-Does}
use robotd.Daemon.Start.{Answers, Made, made, pid_line}
use robotd.Daemon.Start.Found.{found}
use robotd.Daemon.Class.{Daemon, DaemonClass}
use robotd.Daemon.Class.Laws.{IsDaemonClass}
use robotd.Program.Life.{destroy_read}
use robotd.Program.System.Alone.{leave_only, IsSingle, IsMade-pid_file}
use robotd.Program.System.{
  System, Call, process_of, Listed, launch, settle, invoke, leave, invoke_after,
}

-- The constructor of the daemon that `restart` becomes, once the daemon `p` was sent SIGTERM.
abbrev pub replacement :
    {os : Os} {S : Type 0}
    → DaemonClass os S
    → Loader S
    → Call
    → Bytes
    → os.World
    → ℕ
    → Made × os.World × Daemon S
replacement {os} d first call file w p =
    d.daemon file run_dir call.answers (os.kill w p sigterm).1 first

module _ {os : Os} {S : Type 0} (d : DaemonClass os S) (first : Loader S) (posix : IsPosix os)
    (laws : IsDaemonClass d) where
  pub launch-made :
      (file : Bytes) (a : Answers) (w : os.World) (daemons : List (ℕ × Daemon S))
      → (d.daemon file run_dir a w first).0 ≡ made
      → launch d first file a w daemons ≡ record {
        world = (d.daemon file run_dir a w first).1;
        daemons = (a.getpid, (d.daemon file run_dir a w first).2) ∷ daemons;
      }
  unfolding launch
  launch-made file a w daemons h = ground arith

  invoke-run_daemon :
      (call : Call) (sys : System os S) (file : Bytes)
      → (main os call.argv (process_of call sys.world)).0 ≡ run_daemon file
      → invoke d first call sys
        ≡ launch d first file call.answers
            (main os call.argv (process_of call sys.world)).1.world
            sys.daemons
  unfolding invoke settle
  invoke-run_daemon call sys file h = rw (invoke, h) refl

  leave_second :
      (p q : ℕ) (o n : Daemon S) (w : os.World)
      → q ≢ p
      → leave d p (record { world = w; daemons = (q, n) ∷ (p, o) ∷ [] })
        ≡ record { world = d.destroy o w; daemons = (q, n) ∷ [] }
  unfolding leave
  leave_second p q o n w other = ground (arith, other)

  module _ (w : os.World) (p : ℕ) (o : Daemon S)
      (single : IsSingle d (record { world = w; daemons = (p, o) ∷ [] }))
      (listed : Listed (os.proc w) ((p, o) ∷ [])) (call : Call) (program saved : Bytes) (c : ℕ)
      (path : Bytes) (config : HasConfig os (process_of call w) saved c path)
      (restarts : call.argv ≡ program ∷ option_key 2 ∷ [])
      (sent : (os.kill w p sigterm).0 ≡ none) where
    abbrev new : Made × os.World × Daemon S
    new = replacement d first call (c ∷ path) w p

    main_restart :
        let (result, t) = main os call.argv (process_of call w) in
        (result ≡ run_daemon (c ∷ path)) × (t.world ≡ (os.kill w p sigterm).1)
    main_restart =
        let s = process_of call w in
        let (stored, small, constructed) = single.alone in
        let (before, after, names) = listed.0 in
        let live = found s p before after small stored names in
        let does = restart-Does os posix s (pid_line p) p live saved c path config program in
        rw (restarts) (does.0 ∙ rw sent refl, does.1)

    invoke_restart :
        new.0 ≡ made
        → invoke d first call (record { world = w; daemons = (p, o) ∷ [] })
          ≡ record { world = new.1; daemons = (call.answers.getpid, new.2) ∷ (p, o) ∷ [] }
    invoke_restart h =
        let (starts, killed) = main_restart in
        invoke-run_daemon call (record { world = w; daemons = (p, o) ∷ [] }) (c ∷ path) starts
        ∙ ap (λ v. launch d first (c ∷ path) call.answers v ((p, o) ∷ [])) killed
        ∙ launch-made (c ∷ path) call.answers (os.kill w p sigterm).1 ((p, o) ∷ []) h

    pub leave-invoke :
        new.0 ≡ made
        → call.answers.getpid ≢ p
        → (os.unlink new.1 pid_file).0 ≡ none
        → let sys = leave d p (invoke d first call (record { world = w; daemons = (p, o) ∷ [] })) in
          (sys.daemons ≡ (call.answers.getpid, new.2) ∷ [])
          × (e : ℕ) × (os.read sys.world pid_file ≡ refused e)
    leave-invoke h other removed =
        let (stored, small, constructed) = single.alone in
        let named = IsMade-pid_file d laws o constructed in
        let whole =
          ap (leave d p) (invoke_restart h)
          ∙ leave_second p call.answers.getpid o new.2 new.1 other in
        let (e, gone) = destroy_read d laws o new.1 pid_file named removed in
        (ap (λ x. x.daemons) whole, e, ap (λ x. os.read x.world pid_file) whole ∙ gone)

    -- The daemon ends before the new one is made.
    abbrev ended_world : os.World
    ended_world = d.destroy o (os.kill w p sigterm).1

    leave_first :
        leave d p (record { world = (os.kill w p sigterm).1; daemons = (p, o) ∷ [] })
        ≡ record { world = ended_world; daemons = [] }
    leave_first = leave_only d p o (os.kill w p sigterm).1

    pub invoke_after-made :
        (d.daemon (c ∷ path) run_dir call.answers ended_world first).0 ≡ made
        → invoke_after d first p call (record { world = w; daemons = (p, o) ∷ [] }) ≡ record {
          world = (d.daemon (c ∷ path) run_dir call.answers ended_world first).1;
          daemons =
              (call.answers.getpid, (d.daemon (c ∷ path) run_dir call.answers ended_world first).2)
              ∷ [];
        }
    unfolding invoke_after settle
    invoke_after-made h =
        let (starts, killed) = main_restart in
        let go = settle d first in
        let (r, t) = main os call.argv (process_of call w) in
        ap (λ x. go x call.answers (leave d p (record { world = t.world; daemons = (p, o) ∷ [] })))
          starts
        ∙ ap
            (λ v.
              go (run_daemon (c ∷ path)) call.answers
                (leave d p (record { world = v; daemons = (p, o) ∷ [] })))
            killed
        ∙ ap (go (run_daemon (c ∷ path)) call.answers) leave_first
        ∙ launch-made (c ∷ path) call.answers ended_world [] h
