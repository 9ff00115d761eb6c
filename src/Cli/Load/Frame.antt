-- ===== src/Cli/Load/Frame.antt =====
-- `option_load` leaves the PID file alone.
use robotd.Common.{
  ◌≡◌, ◌++◌, codes, Bytes, Bool, true, false, arith, Option, Option-cases, inl, inr,
}
use robotd.Directories.{pid_file, config_load, run_conf_dir}
use robotd.Posix.{Os}
use robotd.Posix.Files.{IsFiles, config_load-ne}
use robotd.Cli.State.{Process, fopen_r, fopen_w}
use robotd.Cli.Load.{option_load, save, save_again, retry, make_run_dir, locate, below}

module _ (os : Os) where
  -- The PID file of `s`, as it is read.
  abbrev pub SamePid : Process os → Process os → Type 0
  SamePid s t = os.read t.world pid_file ≡ os.read s.world pid_file

  module _ (files : IsFiles os) where
    pub write_pid_file :
        (w : os.World) (text : Bytes)
        → os.read (os.write w config_load text).1 pid_file ≡ os.read w pid_file
    write_pid_file w text = files.write_other w config_load text pid_file config_load-ne

    pub make_run_dir-SamePid : (s : Process os) → SamePid s (make_run_dir os s).1
    unfolding make_run_dir
    make_run_dir-SamePid s = ground (arith, files.mkdir_read s.world run_conf_dir pid_file)

    save_again-SamePid :
        (line : Bytes) (ready : Bool) (s : Process os) → SamePid s (save_again os line ready s).1
    unfolding save_again
    save_again-SamePid line false s = ground arith
    save_again-SamePid line true s = ground (arith, write_pid_file s.world line)

    retry-SamePid : (line : Bytes) (s : Process os) → SamePid s (retry os line s).1
    unfolding retry
    retry-SamePid line s =
        let (ready, t) = make_run_dir os s in
        ground (arith, make_run_dir-SamePid s, save_again-SamePid line ready t)

    save-SamePid : (s : Process os) → SamePid s (save os s).1
    unfolding save
    save-SamePid s =
        let line = s.config_file ++ codes "\n" in
        ground
          (arith, write_pid_file s.world line, retry-SamePid line (fopen_w os config_load line s).1)

    locate-world :
        (dir conf : Bytes) (first : Option Bytes) (s : Process os)
        → (locate os dir conf first s).1.world ≡ s.world
    unfolding locate
    locate-world dir conf first s = ground arith

    pub option_load-SamePid : (s : Process os) → SamePid s (option_load os s).1
    unfolding option_load
    option_load-SamePid s =
        let conf = s.config_file in
        elim (Option-cases (os.cwd s.world)) [
          | inl none_there ↦ ground (arith, none_there)
          | inr (dir, e) ↦
              let (first, t) = fopen_r os (below dir conf) s in
              let found = (locate os dir conf first t).1 in
              ground (arith, e, locate-world dir conf first t, save-SamePid found)
        ]
