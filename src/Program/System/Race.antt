-- ===== src/Program/System/Race.antt =====
-- Two commands at once: each looks for a daemon before either has become one.
use robotd.Common.{ℕ, ◌≡◌, refl, ap, ◌∙◌, Bytes, pos, some, [], ◌∷◌, arith, str_eq, length, codes}
use robotd.Directories.{pid_file}
use robotd.Posix.{Os, refused}
use robotd.Posix.Files.{IsFiles}
use robotd.Cli.State.{Process}
use robotd.Cli.Options.{option_key}
use robotd.Cli.Load.{Exit, ret, option_load}
use robotd.Cli.Load.Frame.{option_load-SamePid}
use robotd.Cli.Parse.{run_daemon, no_daemon_process, parse_options, main}
use robotd.Cli.Parse.Stopped.{run_option-vacant}
use robotd.Loader.State.{Loader}
use robotd.Posix.{IsPosix, opened}
use robotd.Directories.{run_dir}
use robotd.Daemon.Start.{Answers, Made, made, pid_line}
use robotd.Daemon.Start.Fate.{IsErrno}
use robotd.Daemon.Class.{Daemon, DaemonClass}
use robotd.Daemon.Class.Laws.{IsDaemonClass, class-IsDaemonClass}
use robotd.Program.Main.{robot_daemon}
use robotd.Loader.Settings.{Env}
use robotd.Loader.Class.{first_state}
use robotd.TcpServer.Config.{Settings, defaults, load_config}
use robotd.Program.System.Restart.{launch-made}
use robotd.Program.System.{Call, process_of, invoke_both, settle, launch}

module _ (os : Os) where
  -- A `load` without a daemon is `option_load`.
  load_vacant :
      (s : Process os) (e : ℕ) (program file : Bytes)
      → os.read s.world pid_file ≡ refused e
      → parse_options os (program ∷ option_key 0 ∷ file ∷ []) s
        ≡ option_load os (record s { errno = e; config_file = file })
  unfolding parse_options no_daemon_process str_eq
  load_vacant s e program file vacant =
      run_option-vacant os s e vacant (option_key 0) (some file) refl ∙ ground arith

  -- `option_load` of a command `load` that found no PID file.
  abbrev pub loaded : Call → Bytes → os.World → ℕ → Exit × Process os
  loaded call file w e =
      option_load os (record (process_of call w) { errno = e; config_file = file })

  -- Such a command becomes a daemon, and leaves the PID file as it was.
  main_vacant :
      (files : IsFiles os) (call : Call) (program file : Bytes) (w : os.World) (e : ℕ)
      → call.argv ≡ program ∷ option_key 0 ∷ file ∷ []
      → os.read w pid_file ≡ refused e
      → (loaded call file w e).0 ≡ ret (pos 0)
      → (main os call.argv (process_of call w)
          ≡ (run_daemon (loaded call file w e).1.config_file, (loaded call file w e).1))
        × (os.read (loaded call file w e).1.world pid_file ≡ refused e)
  unfolding main
  main_vacant files call program file w e loads vacant done =
      let s = process_of call w in
      let same = option_load-SamePid os files (record s { errno = e; config_file = file }) in
      (
        ap (λ argv. main os argv s) loads
            ∙ ground (arith, load_vacant s e program file vacant, done),
        same ∙ vacant,
      )

module _ {os : Os} {S : Type 0} (d : DaemonClass os S) (first : Loader S) (posix : IsPosix os)
    (files : IsFiles os) (laws : IsDaemonClass d) where
  -- The constructors one after the other.
  settle-made :
      (f g : Bytes) (a b : Answers) (w : os.World)
      → (d.daemon f run_dir a w first).0 ≡ made
      → (d.daemon g run_dir b (d.daemon f run_dir a w first).1 first).0 ≡ made
      → settle d first
          (run_daemon g)
          b
          (settle d first (run_daemon f) a (record { world = w; daemons = [] }))
        ≡ record {
          world = (d.daemon g run_dir b (d.daemon f run_dir a w first).1 first).1;
          daemons =
              (b.getpid, (d.daemon g run_dir b (d.daemon f run_dir a w first).1 first).2)
              ∷ (a.getpid, (d.daemon f run_dir a w first).2)
              ∷ [];
        }
  unfolding settle
  settle-made f g a b w one two =
      ap (λ sys. launch d first g b sys.world sys.daemons)
        (launch-made d first posix laws f a w [] one)
      ∙ launch-made d first posix laws g b (d.daemon f run_dir a w first).1
          ((a.getpid, (d.daemon f run_dir a w first).2) ∷ []) two

  -- Two commands `load` at once, on a machine without a PID file, make two daemons.
  pub invoke_both-load :
      (w : os.World) (e : ℕ) (a b : Call) (program file program' file' : Bytes)
      → os.read w pid_file ≡ refused e
      → a.argv ≡ program ∷ option_key 0 ∷ file ∷ []
      → b.argv ≡ program' ∷ option_key 0 ∷ file' ∷ []
      → let (r, t) = loaded os a file w e in
        let (q, u) = loaded os b file' t.world e in
        let new = d.daemon t.config_file run_dir a.answers u.world first in
        let second = d.daemon u.config_file run_dir b.answers new.1 first in
        r ≡ ret (pos 0)
        → q ≡ ret (pos 0)
        → new.0 ≡ made
        → second.0 ≡ made
        → invoke_both d first a b (record { world = w; daemons = [] }) ≡ record {
          world = second.1;
          daemons = (b.answers.getpid, second.2) ∷ (a.answers.getpid, new.2) ∷ [];
        }
  unfolding invoke_both
  invoke_both-load w e a b program file program' file' vacant argv argv' one two new second =
      let (r, t) = loaded os a file w e in
      let (q, u) = loaded os b file' t.world e in
      let (starts, still) = main_vacant os files a program file w e argv vacant one in
      let (starts', _) = main_vacant os files b program' file' t.world e argv' still two in
      let go = settle d first in
      ap
        (λ x.
          let (o, v) = main os b.argv (process_of b x.1.world) in
          go o b.answers (go x.0 a.answers (record { world = v.world; daemons = [] })))
        starts
      ∙ ap
          (λ y.
            go y.0 b.answers (
              go (run_daemon t.config_file) a.answers (record { world = y.1.world; daemons = [] })))
          starts'
      ∙ settle-made t.config_file u.config_file a.answers b.answers u.world new second

module _ (os : Os) (env : Env) (unset unset_signo : ℕ) (a b : Call) (file file' : Bytes)
    (w : os.World) (e : ℕ) where
  abbrev d : DaemonClass os Settings
  d = robot_daemon os env unset unset_signo

  -- `option_load` of the one command and then of the other, and then the two constructors.
  abbrev pub one_load : Exit × Process os
  one_load = loaded os a file w e

  abbrev pub other_load : Exit × Process os
  other_load = loaded os b file' one_load.1.world e

  abbrev pub one_made : Made × os.World × Daemon Settings
  one_made =
      d.daemon one_load.1.config_file run_dir a.answers other_load.1.world (first_state defaults)

  abbrev pub other_made : Made × os.World × Daemon Settings
  other_made = d.daemon other_load.1.config_file run_dir b.answers one_made.1 (first_state defaults)

  -- On a system that is IsPosix and IsFiles, without a PID file and when a failing call leaves
  -- no 0 in errno: when two commands load run at once, so that both have written CONFIG_LOAD
  -- before either makes its daemon, and option_load and the constructor of each succeed, then
  -- two daemons run, and the PID file has the number of the second alone.
  pub invoke_both-daemons :
      (program program' : Bytes)
      → IsPosix os
      → IsFiles os
      → IsErrno b.answers
      → os.read w pid_file ≡ refused e
      → a.argv ≡ program ∷ option_key 0 ∷ file ∷ []
      → b.argv ≡ program' ∷ option_key 0 ∷ file' ∷ []
      → one_load.0 ≡ ret (pos 0)
      → other_load.0 ≡ ret (pos 0)
      → one_made.0 ≡ made
      → other_made.0 ≡ made
      → let sys = invoke_both d (first_state defaults) a b (record { world = w; daemons = [] }) in
        (length sys.daemons ≡ 2) × (os.read sys.world pid_file ≡ opened (pid_line b.answers.getpid))
  invoke_both-daemons program program' posix files errno vacant argv argv' one two new second =
      let l : Loader Settings = first_state defaults in
      let laws =
        class-IsDaemonClass os env (codes "Daemon") load_config [] unset unset_signo posix in
      let whole =
        invoke_both-load d l posix files laws w e a b program file program' file' vacant argv argv'
          one two new second in
      let stored =
        (laws.constructed other_load.1.config_file run_dir b.answers one_made.1 l errno second).1 in
      (ap (λ sys. length sys.daemons) whole, ap (λ sys. os.read sys.world pid_file) whole ∙ stored)
