-- ===== src/Cli/Load/Word.antt =====
-- What `option_load` leaves in `CONFIG_LOAD` has a word in it, or is what was there.
use robotd.Common.{
  ◌≡◌, ◌≢◌, refl, sym, ap, ◌∙◌, ◌++◌, inl, inr, codes, Bytes, Bool, true, false, arith, Option,
  Option-cases, [], ◌∷◌, word, skip_space,
}
use robotd.Directories.{config_load, run_conf_dir, etc_conf_dir, slash}
use robotd.Posix.{Os, Opened, opened, refused, IsPosix}
use robotd.Posix.Files.{IsFiles}
use robotd.Cli.Scan.{scan_word}
use robotd.Cli.State.{Process, fopen_r, fopen_w}
use robotd.Cli.Load.Saved.{locate-config_file}
use robotd.Cli.Load.{option_load, save, save_again, retry, make_run_dir, locate, below}

-- If the file can be read, `fscanf` finds a word in it.
abbrev pub HasWord : Opened → Type 0
HasWord (opened text) = scan_word text ≢ []
HasWord (refused e) = Unit

abbrev pub IsFull : Bytes → Type 0
IsFull path = (rest : Bytes) × (path ≡ b'/' ∷ rest)

pub scan_word-full : (rest : Bytes) → scan_word (b'/' ∷ rest) ≢ []
unfolding scan_word skip_space word
scan_word-full rest h = cc

scan_word-IsFull : (path end : Bytes) → IsFull path → scan_word (path ++ end) ≢ []
scan_word-IsFull path end (rest, e) h =
    scan_word-full (rest ++ end) (ap (λ p. scan_word (p ++ end)) (sym e) ∙ h)

below-IsFull : (dir conf : Bytes) → IsFull dir → IsFull (below dir conf)
below-IsFull dir conf (rest, e) = (rest ++ (slash ++ conf), ap (λ d. below d conf) e)

module _ (os : Os) where
  abbrev pub Saves : os.World → Type 0
  Saves w = HasWord (os.read w config_load)

  pub same-Saves :
      (w v : os.World) → os.read v config_load ≡ os.read w config_load → Saves w → Saves v
  same-Saves w v e h = rw e h

  module _ (posix : IsPosix os) (files : IsFiles os) where
    pub write-Saves :
        (w : os.World) (text : Bytes)
        → scan_word text ≢ []
        → Saves w
        → Saves (os.write w config_load text).1
    write-Saves w text full h = elim (Option-cases (os.write w config_load text).0) [
      | inl done ↦ rw (posix.read_written w config_load text done) full
      | inr (e, fails) ↦
          same-Saves w (os.write w config_load text).1
            (files.write_failed w config_load text e fails) h
    ]

    pub make_run_dir-Saves : (s : Process os) → Saves s.world → Saves (make_run_dir os s).1.world
    unfolding make_run_dir
    make_run_dir-Saves s h = ground (
      arith,
      same-Saves s.world (os.mkdir s.world run_conf_dir).1
          (files.mkdir_read s.world run_conf_dir config_load) h,
    )

    save_again-Saves :
        (line : Bytes) (ready : Bool) (s : Process os)
        → scan_word line ≢ []
        → Saves s.world
        → Saves (save_again os line ready s).1.world
    unfolding save_again
    save_again-Saves line false s full h = h
    save_again-Saves line true s full h = ground (arith, write-Saves s.world line full h)

    retry-Saves :
        (line : Bytes) (s : Process os)
        → scan_word line ≢ []
        → Saves s.world
        → Saves (retry os line s).1.world
    unfolding retry
    retry-Saves line s full h =
        let (ready, t) = make_run_dir os s in
        save_again-Saves line ready t full (make_run_dir-Saves s h)

    save-Saves : (s : Process os) → IsFull s.config_file → Saves s.world → Saves (save os s).1.world
    unfolding save
    save-Saves s full h =
        let line = s.config_file ++ codes "\n" in
        let has = scan_word-IsFull s.config_file (codes "\n") full in
        let wrote = write-Saves s.world line has h in
        ground (arith, wrote, retry-Saves line (fopen_w os config_load line s).1 has)

    locate-IsFull :
        (dir conf : Bytes) (first : Option Bytes) (s : Process os)
        → IsFull dir
        → IsFull (locate os dir conf first s).1.config_file
    locate-IsFull dir conf first s full = elim (locate-config_file os dir conf first s) [
      | inl here ↦ rw here (below-IsFull dir conf full)
      | inr etc ↦ rw etc (below-IsFull etc_conf_dir conf (codes "etc", refl))
    ]

    locate-Saves :
        (dir conf : Bytes) (first : Option Bytes) (s : Process os)
        → Saves s.world
        → Saves (locate os dir conf first s).1.world
    unfolding locate
    locate-Saves dir conf first s h = ground arith

    pub option_load-Saves : (s : Process os) → Saves s.world → Saves (option_load os s).1.world
    unfolding option_load
    option_load-Saves s h =
        let conf = s.config_file in
        elim (Option-cases (os.cwd s.world)) [
          | inl none_there ↦ ground (arith, none_there)
          | inr (dir, e) ↦
              let (first, t) = fopen_r os (below dir conf) s in
              ground (
                arith,
                e,
                locate-Saves dir conf first t,
                locate-IsFull dir conf first t (files.cwd_full s.world dir e),
                save-Saves (locate os dir conf first t).1,
              )
        ]
