-- ===== src/Program/System/Stop.antt =====
-- `stop` while a daemon runs: the signal, the end of the daemon, and the PID file.
use robotd.Common.{ℕ, ◌≡◌, ap, sym, ◌∙◌, ◌++◌, Bytes, Option, none, List, [], ◌∷◌, arith}
use robotd.Definitions.{sigterm}
use robotd.Directories.{run_dir, pid_file}
use robotd.Posix.{Os, IsPosix, refused}
use robotd.Loader.State.{Loader}
use robotd.Cli.Options.{option_key}
use robotd.Cli.Parse.{exits, main}
use robotd.Cli.Parse.Running.{HasConfig}
use robotd.Cli.Parse.Signals.{stop-Does}
use robotd.Daemon.Monitor.{running, ended, SetupCall, first_failure, setup_calls}
use robotd.Daemon.Start.{pid_line}
use robotd.Daemon.Start.Found.{found}
use robotd.Daemon.Class.{Turn, Daemon, DaemonClass}
use robotd.Daemon.Class.Laws.{IsTerm, IsDaemonClass}
use robotd.Program.Life.{destroy_read}
use robotd.Program.System.Alone.{leave_only, IsSingle, IsMade, IsMade-pid_file}
use robotd.Program.System.{Call, process_of, Listed, settle, invoke, leave}

module _ {os : Os} {S : Type 0} (d : DaemonClass os S) where
  -- An object of the class ends by SIGTERM, whatever it did before.
  pub IsMade-ended :
      (laws : IsDaemonClass d) (o : Daemon S) (setup : SetupCall → Option ℕ)
      (turns : List (Turn os)) (last : Turn os)
      → IsMade d o
      → first_failure setup setup_calls ≡ none
      → (d.monitor_proc setup turns o).0 ≡ running
      → IsTerm last
      → (d.monitor_proc setup (turns ++ last ∷ []) o).0 ≡ ended 0
  IsMade-ended laws o setup turns last h none_fails goes_on term =
      ap (λ x. (d.monitor_proc setup (turns ++ last ∷ []) x).0) h.same
      ∙ laws.terminated h.config run_dir h.answers h.world h.loader setup turns last none_fails
          (ap (λ x. (d.monitor_proc setup turns x).0) (sym h.same) ∙ goes_on) term

module _ {os : Os} {S : Type 0} (d : DaemonClass os S) (first : Loader S) (posix : IsPosix os)
    (w : os.World) (p : ℕ) (o : Daemon S)
    (single : IsSingle d (record { world = w; daemons = (p, o) ∷ [] }))
    (listed : Listed (os.proc w) ((p, o) ∷ [])) (call : Call) (program saved : Bytes) (c : ℕ)
    (path : Bytes) (config : HasConfig os (process_of call w) saved c path)
    (stops : call.argv ≡ program ∷ option_key 3 ∷ []) where
  main_stop :
      let (result, t) = main os call.argv (process_of call w) in
      (result ≡ exits 0) × (t.world ≡ (os.kill w p sigterm).1)
  main_stop =
      let s = process_of call w in
      let (stored, small, constructed) = single.alone in
      let (before, after, names) = listed.0 in
      let live = found s p before after small stored names in
      rw stops (stop-Does os posix s (pid_line p) p live saved c path config program)

  pub invoke_stop :
      invoke d first call (record { world = w; daemons = (p, o) ∷ [] })
      ≡ record { world = (os.kill w p sigterm).1; daemons = (p, o) ∷ [] }
  unfolding invoke settle
  invoke_stop = ground (arith, main_stop)

  -- Once the daemon has left, there is none, and no PID file.
  pub leave_stop :
      (laws : IsDaemonClass d)
      → (os.unlink (os.kill w p sigterm).1 pid_file).0 ≡ none
      → let sys = leave d p (invoke d first call (record { world = w; daemons = (p, o) ∷ [] })) in
        (sys.daemons ≡ []) × (e : ℕ) × (os.read sys.world pid_file ≡ refused e)
  leave_stop laws removed =
      let (stored, small, constructed) = single.alone in
      let named = IsMade-pid_file d laws o constructed in
      let whole = ap (leave d p) invoke_stop ∙ leave_only d p o (os.kill w p sigterm).1 in
      let (e, gone) = destroy_read d laws o (os.kill w p sigterm).1 pid_file named removed in
      (ap (λ x. x.daemons) whole, e, ap (λ x. os.read x.world pid_file) whole ∙ gone)
