-- ===== src/Daemon/Start/Frame.antt =====
-- The constructor touches no file but the PID file.
use robotd.Common.{ℕ, ◌≡◌, ◌≢◌, refl, Bytes, Bool, Option, none, some, List, [], ◌∷◌, arith}
use robotd.Posix.{Os}
use robotd.Posix.Files.{IsFiles}
use robotd.Loader.State.{Loader, is_some}
use robotd.Loader.Config.{Loaded}
use robotd.Daemon.Start.{
  Answers, Complaint, pid_line, cleared, set_pid_file, in_turn, daemonize, start, daemon, calls,
}

module _ (os : Os) (files : IsFiles os) (path other : Bytes) (differ : path ≢ other) where
  abbrev Same : os.World → os.World → Type 0
  Same w v = os.read v other ≡ os.read w other

  set_pid_file-Same : (pid : ℕ) (w : os.World) → Same w (set_pid_file os path pid w).1
  unfolding set_pid_file cleared
  set_pid_file-Same pid w = ground (
    arith,
    files.write_other (cleared os path w) path (pid_line pid) other differ,
    files.unlink_other w path other differ,
  )

  in_turn-Same :
      (logs : Bool) (tests : List (Option ℕ × (ℕ → Complaint))) (pid : ℕ) (w : os.World)
      → Same w (in_turn os path logs tests pid w).1
  unfolding in_turn
  in_turn-Same logs [] pid w = ground (arith, set_pid_file-Same pid w)
  in_turn-Same logs ((none, c) ∷ rest) pid w = in_turn-Same logs rest pid w
  in_turn-Same logs ((some e, c) ∷ rest) pid w = refl

  daemonize-Same :
      (logs : Bool) (a : Answers) (w : os.World) → Same w (daemonize os path logs a w).1
  unfolding daemonize
  daemonize-Same logs a w = ground (arith, in_turn-Same logs (calls a) a.getpid w)

  -- The constructor leaves every other file as it is, however it ends.
  pub daemon-Same :
      {S : Type 0} (load : Loader S → Loaded × Loader S) (a : Answers) (w : os.World) (l : Loader S)
      → Same w (daemon os path load a w l).1
  unfolding daemon start
  daemon-Same load a w l = let (r, t) = load l in ground (arith, daemonize-Same (is_some t.log) a w)
