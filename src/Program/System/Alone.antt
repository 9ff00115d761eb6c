-- ===== src/Program/System/Alone.antt =====
-- The state of a machine on which at most one daemon runs.
use robotd.Common.{
  ==_iff, refl, arith, ℕ, ◌<◌, ◌^◌, ◌≡◌, ap, ◌∙◌, inl, inr, Bytes, List, [], ◌∷◌, Bool-cases, ◌==◌,
}
use robotd.Directories.{run_dir, pid_file, config_load}
use robotd.Posix.{Os, Opened, opened}
use robotd.Loader.State.{Loader}
use robotd.Cli.Load.Word.{Saves, same-Saves}
use robotd.Daemon.Start.{Answers, pid_line}
use robotd.Daemon.Class.{Daemon, DaemonClass}
use robotd.Daemon.Class.Laws.{IsDaemonClass}
use robotd.Program.System.{System, without, leave}

-- An object that the constructor has made, with the default directory.
pub record IsMade {os : Os} {S : Type 0} (d : DaemonClass os S) (o : Daemon S) : Type 0 where
  pub config : Bytes
  pub answers : Answers
  pub world : os.World
  pub loader : Loader S
  pub same : o ≡ (d.daemon config run_dir answers world loader).2

module _ {os : Os} {S : Type 0} (d : DaemonClass os S) where
  pub IsMade-pid_file : IsDaemonClass d → (o : Daemon S) → IsMade d o → o.pid_file ≡ pid_file
  IsMade-pid_file laws o h =
      ap (λ x. x.pid_file) h.same ∙ laws.named h.config run_dir h.answers h.world h.loader

  pub leave_only :
      (p : ℕ) (o : Daemon S) (w : os.World)
      → leave d p (record { world = w; daemons = (p, o) ∷ [] })
        ≡ record { world = d.destroy o w; daemons = [] }
  unfolding leave
  leave_only p o w = ground (arith, (==_iff p p).1 refl)

  -- The PID file, as it is read, has the number of the daemon, if there is one.
  abbrev pub Alone : Opened → List (ℕ × Daemon S) → Type 0
  Alone file [] = Unit
  Alone file ((p, o) ∷ []) = (file ≡ opened (pid_line p)) × (p < 2 ^ 16) × IsMade d o
  Alone file (x ∷ y ∷ rest) = ⊥

  pub without-Alone :
      (file : Opened) (p : ℕ) (daemons : List (ℕ × Daemon S))
      → Alone file daemons
      → Alone file (without p daemons)
  without-Alone file p [] h = tt
  without-Alone file p ((q, o) ∷ []) h = elim (Bool-cases (p == q)) [
    | inl this ↦ rw this tt
    | inr other ↦ rw other h
  ]
  without-Alone file p (x ∷ y ∷ rest) h = absurd h

  pub record IsSingle (sys : System os S) : Type 0 where
    pub saves : Saves os sys.world
    pub alone : Alone (os.read sys.world pid_file) sys.daemons

  pub passes-IsSingle :
      (sys : System os S) (w : os.World)
      → os.read w pid_file ≡ os.read sys.world pid_file
      → os.read w config_load ≡ os.read sys.world config_load
      → IsSingle sys
      → IsSingle (record sys { world = w })
  passes-IsSingle sys w pid config h = record {
    saves = same-Saves os sys.world w config h.saves;
    alone = rw pid h.alone;
  }
