-- ===== src/Posix.antt =====
-- What the program asks of the operating system. None of it is code of the repository, so it is a
-- parameter: a type of worlds, and calls that answer and change the world. `none` is success, and
-- `some e` a failure that sets `errno` to `e`.
pub mod Memory
pub mod Files
use robotd.Common.{ℕ, ◌≡◌, ◌≢◌, Bytes, Option, none, some, List, ◌⊎◌, inl, inr, refl}

-- `fopen(path, "r")`: the text of the file, or an error number.
pub data Opened : Type 0 where
  opened : Bytes → Opened
  refused : ℕ → Opened

pub opened-cases : (o : Opened) → ((text : Bytes) × (o ≡ opened text)) ⊎ ((e : ℕ) × (o ≡ refused e))
opened-cases (opened text) = inl (text, refl)
opened-cases (refused e) = inr (e, refl)

pub record Os : Type 1 where
  pub World : Type 0
  -- `get_current_dir_name`; `none` is NULL
  pub cwd : World → Option Bytes
  pub read : World → Bytes → Opened
  -- `fopen(path, "w")`, whose answer it is, with all that is printed before the file is closed. The
  -- program does not look at what `fprintf`, `fflush` and `fclose` return.
  pub write : World → Bytes → Bytes → Option ℕ × World
  pub stat : World → Bytes → Option ℕ
  pub mkdir : World → Bytes → Option ℕ × World
  pub unlink : World → Bytes → Option ℕ × World
  -- `opendir("/proc")` and the names that `readdir` gives then; `none` is NULL
  pub proc : World → Option (List Bytes)
  pub kill : World → ℕ → ℕ → Option ℕ × World

-- Documented behaviour that some theorems rely on.
pub record IsPosix (os : Os) : Type 0 where
  -- a file that was opened and written can be read back: what is printed reaches it
  pub read_written :
      (w : os.World) (path text : Bytes)
      → (os.write w path text).0 ≡ none
      → os.read (os.write w path text).1 path ≡ opened text
  -- a file that was removed cannot be opened
  pub read_unlinked :
      (w : os.World) (path : Bytes)
      → (os.unlink w path).0 ≡ none
      → (e : ℕ) × (os.read (os.unlink w path).1 path ≡ refused e)
  -- no failing call leaves 0 in errno
  pub read_errno : (w : os.World) (path : Bytes) → os.read w path ≢ refused 0
  pub write_errno : (w : os.World) (path text : Bytes) → (os.write w path text).0 ≢ some 0
  pub mkdir_errno : (w : os.World) (path : Bytes) → (os.mkdir w path).0 ≢ some 0
  pub unlink_errno : (w : os.World) (path : Bytes) → (os.unlink w path).0 ≢ some 0
  pub kill_errno : (w : os.World) (p s : ℕ) → (os.kill w p s).0 ≢ some 0
