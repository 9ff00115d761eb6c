-- ===== src/Posix/Files.antt =====
-- What else the calls of `Os` do to files: a call leaves every file alone that it does not name.
use robotd.Common.{ℕ, ◌≡◌, ◌≢◌, ◌∷◌, Bytes, some}
use robotd.Directories.{pid_file, config_load}
use robotd.Posix.{Os}

-- Documented behaviour that the theorems on several processes rely on.
pub record IsFiles (os : Os) : Type 0 where
  -- a working directory has a full path
  pub cwd_full :
      (w : os.World) (dir : Bytes) → os.cwd w ≡ some dir → (rest : Bytes) × (dir ≡ b'/' ∷ rest)
  pub write_other :
      (w : os.World) (path text other : Bytes)
      → path ≢ other
      → os.read (os.write w path text).1 other ≡ os.read w other
  -- a file that cannot be opened for writing is as it was
  pub write_failed :
      (w : os.World) (path text : Bytes) (e : ℕ)
      → (os.write w path text).0 ≡ some e
      → os.read (os.write w path text).1 path ≡ os.read w path
  pub unlink_other :
      (w : os.World) (path other : Bytes)
      → path ≢ other
      → os.read (os.unlink w path).1 other ≡ os.read w other
  pub mkdir_read :
      (w : os.World) (path other : Bytes) → os.read (os.mkdir w path).1 other ≡ os.read w other
  pub kill_read :
      (w : os.World) (p s : ℕ) (path : Bytes) → os.read (os.kill w p s).1 path ≡ os.read w path

pub pid_file-ne : pid_file ≢ config_load
pid_file-ne h = cc

pub config_load-ne : config_load ≢ pid_file
config_load-ne h = cc
