-- ===== src/Program/System/Lock.antt =====
-- The promise of help(), that only one copy of the daemon runs, as an abstract lock with one holder.
use robotd.Common.{
  ℕ, ◌≡◌, inl, inr, Bytes, false, Option, none, some, List, [], ◌∷◌, arith, Bool-cases, ◌==◌,
}
use robotd.Posix.{Os, IsPosix}
use robotd.Posix.Files.{IsFiles}
use robotd.Directories.{run_dir}
use robotd.Loader.State.{Loader}
use robotd.Cli.Parse.{Outcome, exits, crashes, run_daemon, main}
use robotd.Cli.Parse.Alone.{is_restart}
use robotd.Daemon.Start.{Answers}
use robotd.Daemon.Class.{Daemon, DaemonClass}
use robotd.Daemon.Class.Laws.{IsDaemonClass}
use robotd.Daemon.Class.Tidy.{IsTidy}
use robotd.Program.System.Alone.{IsSingle}
use robotd.Program.System.Single.{invoke_beside}
use robotd.Program.System.{
  System, Call, Listed, without, launch, settle, process_of, invoke, leave, Step, passes, invokes,
  leaves, dies,
}

-- The number of the process that holds the lock.
abbrev pub Holder : Type 0
Holder = Option ℕ

-- Nothing changes; a free lock is taken; its holder gives it up.
pub data Edge : Holder → Holder → Type 0 where
  stays : (h : Holder) → Edge h h
  takes : (p : ℕ) → Edge none (some p)
  gives : (p : ℕ) → Edge (some p) none

abbrev pub holder : {S : Type 0} → List (ℕ × Daemon S) → Holder
holder [] = none
holder ((p, o) ∷ rest) = some p

module _ {os : Os} {S : Type 0} (d : DaemonClass os S) (first : Loader S) where
  launch-Edge :
      (file : Bytes) (a : Answers) (w : os.World)
      → Edge none (holder (launch d first file a w []).daemons)
  unfolding launch
  launch-Edge file a w =
      let (m, v, o) = d.daemon file run_dir a w first in ground (arith, takes a.getpid, stays none)

  settle-Edge :
      (o : Outcome) (a : Answers) (w : os.World)
      → Edge none (holder (settle d first o a (record { world = w; daemons = [] })).daemons)
  unfolding settle
  settle-Edge (exits n) a w = stays none
  settle-Edge crashes a w = stays none
  settle-Edge (run_daemon file) a w = launch-Edge file a w

  invoke-Edge_none :
      (call : Call) (w : os.World)
      → Edge none (holder (invoke d first call (record { world = w; daemons = [] })).daemons)
  unfolding invoke
  invoke-Edge_none call w =
      let (o, t) = main os call.argv (process_of call w) in settle-Edge o call.answers t.world

without-Edge :
    {S : Type 0} (p q : ℕ) (o : Daemon S) → Edge (some q) (holder (without p ((q, o) ∷ [])))
without-Edge p q o = elim (Bool-cases (p == q)) [
  | inl this ↦ rw this (gives q)
  | inr other ↦ rw other (stays (some q))
]

module _ {os : Os} {S : Type 0} (d : DaemonClass os S) where
  leave-Edge :
      (p q : ℕ) (o : Daemon S) (w : os.World)
      → Edge (some q) (holder (leave d p (record { world = w; daemons = (q, o) ∷ [] })).daemons)
  unfolding leave
  leave-Edge p q o w = elim (Bool-cases (p == q)) [
    | inl this ↦ rw (leave, this) (without-Edge p q o)
    | inr other ↦ rw (leave, other) (stays (some q))
  ]

  leave-Edge_none :
      (p : ℕ) (w : os.World)
      → Edge none (holder (leave d p (record { world = w; daemons = [] })).daemons)
  unfolding leave
  leave-Edge_none p w = stays none

module _ {os : Os} {S : Type 0} (d : DaemonClass os S) (first : Loader S) (posix : IsPosix os)
    (files : IsFiles os) (laws : IsDaemonClass d) (tidy : IsTidy d) where
  invoke-Edge_one :
      (call : Call) (w : os.World) (p : ℕ) (o : Daemon S)
      → IsSingle d (record { world = w; daemons = (p, o) ∷ [] })
      → Listed (os.proc w) ((p, o) ∷ [])
      → is_restart call.argv ≡ false
      → Edge
          (some p)
          (holder (invoke d first call (record { world = w; daemons = (p, o) ∷ [] })).daemons)
  invoke-Edge_one call w p o h listed other =
      rw (invoke_beside d first posix files laws tidy call w p o h listed other) (stays (some p))

  Step-Edge_none :
      (w : os.World) (next : System os S)
      → Step d first (record { world = w; daemons = [] }) next
      → Edge none (holder next.daemons)
  Step-Edge_none w _ (passes v pid config) = stays none
  Step-Edge_none w _ (invokes call e small listed other) = invoke-Edge_none d first call w
  Step-Edge_none w _ (leaves p) = leave-Edge_none d p w
  Step-Edge_none w _ (dies p) = stays none

  Step-Edge_one :
      (w : os.World) (q : ℕ) (o : Daemon S) (next : System os S)
      → IsSingle d (record { world = w; daemons = (q, o) ∷ [] })
      → Step d first (record { world = w; daemons = (q, o) ∷ [] }) next
      → Edge (some q) (holder next.daemons)
  Step-Edge_one w q o _ h (passes v pid config) = stays (some q)
  Step-Edge_one w q o _ h (invokes call e small listed (inl other)) =
      invoke-Edge_one call w q o h listed other
  Step-Edge_one w q o _ h (invokes call e small listed (inr none_runs)) = cc
  Step-Edge_one w q o _ h (leaves p) = leave-Edge d p q o w
  Step-Edge_one w q o _ h (dies p) = without-Edge p q o

  pub Step-Edge :
      (w : os.World) (daemons : List (ℕ × Daemon S)) (next : System os S)
      → IsSingle d (record { world = w; daemons = daemons })
      → Step d first (record { world = w; daemons = daemons }) next
      → Edge (holder daemons) (holder next.daemons)
  Step-Edge w [] next h s = Step-Edge_none w next s
  Step-Edge w ((q, o) ∷ []) next h s = Step-Edge_one w q o next h s
  Step-Edge w (x ∷ y ∷ rest) next h s = absurd h.alone
