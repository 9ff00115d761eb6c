-- ===== src/Cli/Load/Saved/Found.antt =====
-- Which of the two files `option_load` takes.
use robotd.Common.{◌≡◌, inl, inr, ℕ, Bytes, pos, some, arith, Option-cases}
use robotd.Directories.{etc_conf_dir}
use robotd.Posix.{Os, IsPosix, opened, refused, opened-cases}
use robotd.Cli.State.{Process}
use robotd.Cli.Load.{ret, option_load, locate, below}
use robotd.Cli.Load.Saved.{
  IsSaved, option_load-IsSaved, save-config_file, located, option_load_fault,
}

module _ (os : Os) where
  -- The file that is asked for can be opened below the working directory; or it cannot, and can be
  -- below /etc.
  pub data IsFound (s : Process os) : Bytes → Type 0 where
    here :
        {dir text : Bytes}
        → os.cwd s.world ≡ some dir
        → os.read s.world (below dir s.config_file) ≡ opened text
        → IsFound s (below dir s.config_file)
    in_etc :
        {dir : Bytes} {e : ℕ} {text : Bytes}
        → os.cwd s.world ≡ some dir
        → os.read s.world (below dir s.config_file) ≡ refused e
        → os.read s.world (below etc_conf_dir s.config_file) ≡ opened text
        → IsFound s (below etc_conf_dir s.config_file)

  module _ (s : Process os) (dir : Bytes) (there : os.cwd s.world ≡ some dir) where
    option_load_here :
        (text : Bytes)
        → os.read s.world (below dir s.config_file) ≡ opened text
        → (option_load os s).1.config_file ≡ below dir s.config_file
    unfolding option_load locate
    option_load_here text e = ground (arith, there, e, save-config_file os (located os dir s).1)

    option_load_in_etc :
        (e : ℕ) (text : Bytes)
        → os.read s.world (below dir s.config_file) ≡ refused e
        → os.read s.world (below etc_conf_dir s.config_file) ≡ opened text
        → (option_load os s).1.config_file ≡ below etc_conf_dir s.config_file
    unfolding option_load locate
    option_load_in_etc e text missing found =
        ground (arith, there, missing, found, save-config_file os (located os dir s).1)

    -- Without either file `errno` is returned, which is not 0.
    option_load_missing :
        IsPosix os
        → (e k : ℕ) → os.read s.world (below dir s.config_file) ≡ refused e
        → os.read s.world (below etc_conf_dir s.config_file) ≡ refused k
        → ¬ ((option_load os s).0 ≡ ret (pos 0))
    unfolding option_load locate
    option_load_missing posix e k missing none_there h = ground (
      arith,
      there,
      missing,
      none_there,
      posix.read_errno s.world (below etc_conf_dir s.config_file),
    )

    located-IsFound :
        IsPosix os → (option_load os s).0 ≡ ret (pos 0) → IsFound s (option_load os s).1.config_file
    located-IsFound posix h = elim (opened-cases (os.read s.world (below dir s.config_file))) [
      | inl (text, e) ↦ rw (option_load_here text e) (here there e)
      | inr (e, missing) ↦
          elim (opened-cases (os.read s.world (below etc_conf_dir s.config_file))) [
            | inl (text, found) ↦
                rw (option_load_in_etc e text missing found) (in_etc there missing found)
            | inr (k, none_there) ↦ absurd (option_load_missing posix e k missing none_there h)
          ]
    ]

  -- On a system that is IsPosix, if option_load returns 0, then either the file could be opened
  -- below the working directory and CONFIG_FILE is its path there, or it could not, the one
  -- below /etc could, and CONFIG_FILE is the path there; and CONFIG_LOAD holds that path and a
  -- newline.
  pub option_load-IsFound :
      IsPosix os
      → (s : Process os) → (option_load os s).0 ≡ ret (pos 0)
      → IsSaved os (option_load os s).1 × IsFound s (option_load os s).1.config_file
  option_load-IsFound posix s h = (
    option_load-IsSaved os posix s h,
    elim (Option-cases (os.cwd s.world)) [
      | inl none_there ↦ absurd (option_load_fault os s none_there h)
      | inr (dir, there) ↦ located-IsFound s dir there posix h
    ],
  )
