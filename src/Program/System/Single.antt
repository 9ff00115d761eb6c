-- ===== src/Program/System/Single.antt =====
-- At most one daemon runs.
use robotd.Common.{
  ℕ, ◌<◌, ◌^◌, ◌≡◌, ◌≢◌, refl, sym, ◌∙◌, ◌⊎◌, inl, inr, Bytes, false, List, [], ◌∷◌, Bool-cases,
  ◌==◌, arith,
}
use robotd.Directories.{run_dir, pid_file, config_load}
use robotd.Posix.{Os, IsPosix}
use robotd.Posix.Files.{IsFiles, pid_file-ne}
use robotd.Loader.State.{Loader}
use robotd.Cli.Load.Word.{Saves, same-Saves}
use robotd.Cli.Parse.{Outcome, exits, crashes, run_daemon, main}
use robotd.Cli.Parse.Alone.{is_restart, main-alone}
use robotd.Cli.Parse.Frame.{main-SamePid}
use robotd.Cli.Parse.Word.{main-Saves}
use robotd.Daemon.Start.{Answers, pid_line}
use robotd.Daemon.Start.Fate.{IsErrno}
use robotd.Daemon.Start.Found.{found}
use robotd.Daemon.Class.{Daemon, DaemonClass}
use robotd.Daemon.Class.Laws.{IsDaemonClass}
use robotd.Daemon.Class.Tidy.{IsTidy}
use robotd.Program.System.Alone.{
  leave_only, IsMade, IsMade-pid_file, Alone, IsSingle, without-Alone, passes-IsSingle,
}
use robotd.Program.System.{
  System, Call, Listed, launch, settle, process_of, invoke, leave, Step, Reachable, boots, then,
  passes, invokes, renews, invoke_after, leaves, dies,
}

module _ {os : Os} {S : Type 0} (d : DaemonClass os S) (first : Loader S) (posix : IsPosix os)
    (files : IsFiles os) (laws : IsDaemonClass d) (tidy : IsTidy d) where
  launch-Saves :
      (file : Bytes) (a : Answers) (w : os.World) (daemons : List (ℕ × Daemon S))
      → Saves os w
      → Saves os (launch d first file a w daemons).world
  unfolding launch
  launch-Saves file a w daemons h =
      let v = (d.daemon file run_dir a w first).1 in
      ground (
        arith,
        same-Saves os w v (tidy.constructor_read file run_dir a w first config_load pid_file-ne) h,
      )

  -- The first daemon.
  launch-Alone :
      (file : Bytes) (a : Answers) (w : os.World)
      → IsErrno a
      → a.getpid < 2 ^ 16
      → let sys = launch d first file a w [] in Alone d (os.read sys.world pid_file) sys.daemons
  unfolding launch
  launch-Alone file a w e small =
      let (m, v, o) = d.daemon file run_dir a w first in
      let constructed : IsMade d o = record {
        config = file;
        answers = a;
        world = w;
        loader = first;
        same = refl;
      } in
      ground (arith, laws.constructed file run_dir a w first e, constructed)

  settle-IsSingle :
      (o : Outcome) (a : Answers) (w : os.World)
      → IsErrno a
      → a.getpid < 2 ^ 16
      → Saves os w
      → IsSingle d (settle d first o a (record { world = w; daemons = [] }))
  unfolding settle
  settle-IsSingle (exits n) a w e small saves = record { saves = saves; alone = tt }
  settle-IsSingle crashes a w e small saves = record { saves = saves; alone = tt }
  settle-IsSingle (run_daemon file) a w e small saves = record {
    saves = launch-Saves file a w [] saves;
    alone = launch-Alone file a w e small;
  }

  -- No second daemon.
  settle_same :
      (o : Outcome) (a : Answers) (sys : System os S)
      → ((file : Bytes) → o ≢ run_daemon file)
      → settle d first o a sys ≡ sys
  unfolding settle
  settle_same (exits n) a sys h = refl
  settle_same crashes a sys h = refl
  settle_same (run_daemon file) a sys h = absurd (h file refl)

  invoke-IsSingle_none :
      (call : Call) (w : os.World)
      → IsErrno call.answers
      → call.answers.getpid < 2 ^ 16
      → Saves os w
      → IsSingle d (invoke d first call (record { world = w; daemons = [] }))
  unfolding invoke
  invoke-IsSingle_none call w e small saves =
      let (o, t) = main os call.argv (process_of call w) in
      settle-IsSingle o call.answers t.world e small
        (main-Saves os posix files call.argv (process_of call w) saves)

  -- A command beside a daemon changes the world alone.
  pub invoke_beside :
      (call : Call) (w : os.World) (p : ℕ) (o : Daemon S)
      → IsSingle d (record { world = w; daemons = (p, o) ∷ [] })
      → Listed (os.proc w) ((p, o) ∷ [])
      → is_restart call.argv ≡ false
      → invoke d first call (record { world = w; daemons = (p, o) ∷ [] })
        ≡ record { world = (main os call.argv (process_of call w)).1.world; daemons = (p, o) ∷ [] }
  unfolding invoke
  invoke_beside call w p o h ((before, after, listed), _) other =
      let s = process_of call w in
      let (stored, small, constructed) = h.alone in
      let live = found s p before after small stored listed in
      let (result, t) = main os call.argv s in
      settle_same result call.answers (record { world = t.world; daemons = (p, o) ∷ [] })
        (λ file. main-alone os posix s (pid_line p) p live h.saves call.argv file other)

  invoke-IsSingle_one :
      (call : Call) (w : os.World) (p : ℕ) (o : Daemon S)
      → IsSingle d (record { world = w; daemons = (p, o) ∷ [] })
      → Listed (os.proc w) ((p, o) ∷ [])
      → is_restart call.argv ≡ false
      → IsSingle d (invoke d first call (record { world = w; daemons = (p, o) ∷ [] }))
  invoke-IsSingle_one call w p o h listed other =
      let s = process_of call w in
      let (stored, small, constructed) = h.alone in
      let (before, after, names) = listed.0 in
      let live = found s p before after small stored names in
      rw (invoke_beside call w p o h listed other) (record {
        saves = main-Saves os posix files call.argv s h.saves;
        alone =
            (main-SamePid os files s (pid_line p) p live call.argv ∙ stored, small, constructed);
      })

  invoke-IsSingle :
      (call : Call) (w : os.World) (daemons : List (ℕ × Daemon S))
      → IsSingle d (record { world = w; daemons = daemons })
      → IsErrno call.answers
      → call.answers.getpid < 2 ^ 16
      → Listed (os.proc w) daemons
      → (is_restart call.argv ≡ false) ⊎ (daemons ≡ [])
      → IsSingle d (invoke d first call (record { world = w; daemons = daemons }))
  invoke-IsSingle call w [] h e small listed other = invoke-IsSingle_none call w e small h.saves
  invoke-IsSingle call w ((p, o) ∷ []) h e small listed (inl other) =
      invoke-IsSingle_one call w p o h listed other
  invoke-IsSingle call w ((p, o) ∷ []) h e small listed (inr none_runs) = cc
  invoke-IsSingle call w (x ∷ y ∷ rest) h e small listed other = absurd h.alone

  leave-IsSingle :
      (p : ℕ) (w : os.World) (daemons : List (ℕ × Daemon S))
      → IsSingle d (record { world = w; daemons = daemons })
      → IsSingle d (leave d p (record { world = w; daemons = daemons }))
  unfolding leave
  leave-IsSingle p w [] h = h
  leave-IsSingle p w ((q, o) ∷ []) h =
      let (stored, small, constructed) = h.alone in
      let named = IsMade-pid_file d laws o constructed in
      let gone = tidy.destroy_read o w config_load (λ e. pid_file-ne (sym named ∙ e)) in
      elim (Bool-cases (p == q)) [
        | inl this ↦
            rw (leave, this)
              (record {
                saves = same-Saves os w (d.destroy o w) gone h.saves;
                alone = ground (arith, this);
              })
        | inr other ↦ rw (leave, other) h
      ]
  leave-IsSingle p w (x ∷ y ∷ rest) h = absurd h.alone

  -- A command that goes on when the daemon has left the machine to it.
  renew-IsSingle :
      (call : Call) (w : os.World) (p : ℕ) (o : Daemon S)
      → IsSingle d (record { world = w; daemons = (p, o) ∷ [] })
      → IsErrno call.answers
      → call.answers.getpid < 2 ^ 16
      → IsSingle d (invoke_after d first p call (record { world = w; daemons = (p, o) ∷ [] }))
  unfolding invoke_after
  renew-IsSingle call w p o h e small =
      let (stored, other, constructed) = h.alone in
      let s = process_of call w in
      let (result, t) = main os call.argv s in
      let named = IsMade-pid_file d laws o constructed in
      let saves =
        same-Saves os t.world (d.destroy o t.world)
          (tidy.destroy_read o t.world config_load (λ n. pid_file-ne (sym named ∙ n)))
          (main-Saves os posix files call.argv s h.saves) in
      rw (leave_only d p o t.world)
        (settle-IsSingle result call.answers (d.destroy o t.world) e small saves)

  pub Step-IsSingle :
      (sys next : System os S) → Step d first sys next → IsSingle d sys → IsSingle d next
  Step-IsSingle sys _ (passes w pid config) h = passes-IsSingle d sys w pid config h
  Step-IsSingle sys _ (invokes call e small listed other) h =
      invoke-IsSingle call sys.world sys.daemons h e small listed other
  Step-IsSingle sys _ (leaves p) h = leave-IsSingle p sys.world sys.daemons h
  Step-IsSingle sys _ (dies p) h = record {
    saves = h.saves;
    alone = without-Alone d (os.read sys.world pid_file) p sys.daemons h.alone;
  }

  pub reachable-IsSingle : (sys : System os S) → Reachable d first sys → IsSingle d sys
  reachable-IsSingle _ (boots w saves) = record { saves = saves; alone = tt }
  reachable-IsSingle _ (then {sys} {next} r s) = Step-IsSingle sys next s (reachable-IsSingle sys r)
  reachable-IsSingle _ (renews {w} {p} {o} call r e small) =
      renew-IsSingle call w p o (reachable-IsSingle (record { world = w; daemons = (p, o) ∷ [] }) r)
        e small
