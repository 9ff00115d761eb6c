-- ===== src/Cli/Load/Saved.antt =====
-- What `option_load` leaves behind.
pub mod Found
use robotd.Common.{
  ◌≡◌, ◌≢◌, ◌⊎◌, ◌++◌, Bytes, codes, false, true, pos, is_negative, Bool, Option, arith, none, some,
  Option-cases, inl, inr,
}
use robotd.Directories.{slash, run_conf_dir, etc_conf_dir, config_load}
use robotd.Posix.{Os, IsPosix, opened}
use robotd.Cli.State.{Process, fopen_w, fopen_r}
use robotd.Cli.Load.{
  Exit, ret, fault, option_load, save, save_again, retry, make_run_dir, locate, below,
}

abbrev pub is_failure : Exit → Bool
is_failure (ret r) = is_negative r
is_failure fault = false

module _ (os : Os) where
  abbrev pub IsSaved : Process os → Type 0
  IsSaved t = os.read t.world config_load ≡ opened (t.config_file ++ codes "\n")

  abbrev line_of : Process os → Bytes
  line_of s = s.config_file ++ codes "\n"

  -- The state after the first attempt to write `CONFIG_LOAD`.
  abbrev tried : Process os → Process os
  tried s = (fopen_w os config_load (line_of s) s).1

  retry-config_file :
      (line : Bytes) (s : Process os) → (retry os line s).1.config_file ≡ s.config_file
  unfolding retry
  retry-config_file line s = ground arith

  save-config_file : (s : Process os) → (save os s).1.config_file ≡ s.config_file
  unfolding save
  save-config_file s = ground (arith, retry-config_file (line_of s) (tried s))

  module _ (posix : IsPosix os) where
    pub make_run_dir_errno :
        (s : Process os) → (make_run_dir os s).0 ≡ false → (make_run_dir os s).1.errno ≢ 0
    unfolding make_run_dir
    make_run_dir_errno s h = ground (arith, posix.mkdir_errno s.world run_conf_dir)

    save_again_lem :
        (line : Bytes) (ready : Bool) (s : Process os)
        → (ready ≡ false → s.errno ≢ 0)
        → (save_again os line ready s).0 ≡ pos 0
        → os.read (save_again os line ready s).1.world config_load ≡ opened line
    unfolding save_again
    save_again_lem line false s e h = ground arith
    save_again_lem line true s e h = ground (
      arith,
      posix.read_written s.world config_load line,
      posix.write_errno s.world config_load line,
    )

    retry_lem :
        (line : Bytes) (s : Process os)
        → (retry os line s).0 ≡ pos 0
        → os.read (retry os line s).1.world config_load ≡ opened line
    unfolding retry
    retry_lem line s h =
        let (ready, t) = make_run_dir os s in save_again_lem line ready t (make_run_dir_errno s) h

    save-IsSaved : (s : Process os) → (save os s).0 ≡ pos 0 → IsSaved (save os s).1
    unfolding save
    save-IsSaved s h = ground (
      arith,
      posix.read_written s.world config_load (line_of s),
      posix.write_errno s.world config_load (line_of s),
      retry_lem (line_of s) (tried s),
      retry-config_file (line_of s) (tried s),
    )

  pub locate-config_file :
      (dir conf : Bytes) (first : Option Bytes) (s : Process os)
      → ((locate os dir conf first s).1.config_file ≡ below dir conf)
        ⊎ ((locate os dir conf first s).1.config_file ≡ below etc_conf_dir conf)
  unfolding locate
  locate-config_file dir conf first s = ground arith

  locate_errno :
      IsPosix os
      → (dir conf : Bytes) (first : Option Bytes) (s : Process os)
      → (locate os dir conf first s).0 ≡ false
      → (locate os dir conf first s).1.errno ≢ 0
  unfolding locate
  locate_errno posix dir conf first s h =
      ground (arith, posix.read_errno s.world (below etc_conf_dir conf))

  -- The state in which the search for the file ends, and whether it succeeded.
  abbrev located : Bytes → Process os → Bool × Process os
  located dir s =
      let conf = s.config_file in
      let (first, t) = fopen_r os (below dir conf) s in locate os dir conf first t

  retry-nonneg : (line : Bytes) (s : Process os) → is_negative (retry os line s).0 ≡ false
  unfolding retry
  retry-nonneg line s = ground arith

  save-nonneg : (s : Process os) → is_negative (save os s).0 ≡ false
  unfolding save
  save-nonneg s = ground (arith, retry-nonneg (line_of s) (tried s))

  -- `option_load` returns 0 or a value of errno, never a negative number.
  pub option_load-nonneg : (s : Process os) → is_failure (option_load os s).0 ≡ false
  unfolding option_load
  option_load-nonneg s = elim (Option-cases (os.cwd s.world)) [
    | inl none_there ↦ ground (arith, none_there)
    | inr (dir, e) ↦ ground (arith, e, save-nonneg (located dir s).1)
  ]

  located-IsSaved :
      IsPosix os
      → (dir : Bytes) (s : Process os) → os.cwd s.world ≡ some dir
      → (option_load os s).0 ≡ ret (pos 0)
      → IsSaved (option_load os s).1
  unfolding option_load
  located-IsSaved posix dir s e h = ground (
    arith,
    e,
    locate_errno posix dir s.config_file (fopen_r os (below dir s.config_file) s).0
        (fopen_r os (below dir s.config_file) s).1,
    save-IsSaved posix (located dir s).1,
    save-config_file (located dir s).1,
  )

  option_load_fault :
      (s : Process os) → os.cwd s.world ≡ none → ¬ ((option_load os s).0 ≡ ret (pos 0))
  unfolding option_load
  option_load_fault s e h = ground (arith, e)

  -- On a system that is IsPosix, a successful option_load left the path in CONFIG_FILE and a newline in
  -- CONFIG_LOAD.
  pub option_load-IsSaved :
      IsPosix os
      → (s : Process os) → (option_load os s).0 ≡ ret (pos 0)
      → IsSaved (option_load os s).1
  option_load-IsSaved posix s h = elim (Option-cases (os.cwd s.world)) [
    | inl none_there ↦ absurd (option_load_fault s none_there h)
    | inr (dir, e) ↦ located-IsSaved posix dir s e h
  ]
