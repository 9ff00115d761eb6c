-- ===== src/Posix/Memory.antt =====
-- A small world that meets the assumptions: files in memory, a list of live processes and a log of
-- signals. The directory for `CONFIG_LOAD` may be missing.
use robotd.Common.{
  ℕ, ◌≡◌, refl, ◌≢◌, Bytes, codes, Bool, true, false, not, ◌&&◌, Option, none, some, List, [], ◌∷◌,
  inl, inr, ap, Bool-cases, arith, ◌==◌, if◌then◌else◌, str_eq, str_eq_refl, str_eq_sound, sym,
  decimal,
}
use robotd.Directories.{config_load}
use robotd.Posix.{Os, Opened, opened, refused, IsPosix}
use robotd.Posix.Files.{IsFiles}

pub record Disk : Type 0 where
  pub files : List (Bytes × Bytes)
  pub has_run_dir : Bool
  pub procs : List Bytes
  pub signals : List (ℕ × ℕ)

find : Bytes → List (Bytes × Bytes) → Opened
find path [] = refused 2
find path ((p, text) ∷ files) = if str_eq path p then opened text else find path files

remove : Bytes → List (Bytes × Bytes) → List (Bytes × Bytes)
remove path [] = []
remove path ((p, text) ∷ files) =
    let rest = remove path files in if str_eq path p then rest else (p, text) ∷ rest

is_alive : ℕ → List Bytes → Bool
is_alive pid [] = false
is_alive pid (name ∷ names) = if decimal name == pid then true else is_alive pid names

write_disk : Disk → Bytes → Bytes → Option ℕ × Disk
write_disk d path text =
    if str_eq path config_load && not d.has_run_dir
    then (some 2, d)
    else (none, record d { files = (path, text) ∷ d.files })

-- A missing file cannot be removed.
unlink_disk : Disk → Bytes → Option ℕ × Disk
unlink_disk d path = elim (find path d.files) [
  | refused e ↦ (some 2, d)
  | opened text ↦ (none, record d { files = remove path d.files })
]

kill_disk : Disk → ℕ → ℕ → Option ℕ × Disk
kill_disk d pid sig =
    if is_alive pid d.procs
    then (none, record d { signals = (pid, sig) ∷ d.signals })
    else (some 3, d)

unfoldable pub memory : Os
unfolding find write_disk remove unlink_disk is_alive kill_disk str_eq decimal
memory = record {
  World = Disk;
  cwd = λ d. some (codes "/home");
  read = λ d path. find path d.files;
  write = write_disk;
  stat = λ d path. if d.has_run_dir then none else some 2;
  mkdir = λ d path. (none, record d { has_run_dir = true });
  unlink = unlink_disk;
  proc = λ d. some d.procs;
  kill = kill_disk;
}

find-written :
    (d : Disk) (path text : Bytes)
    → (write_disk d path text).0 ≡ none
    → find path (write_disk d path text).1.files ≡ opened text
unfolding write_disk find
find-written d path text h = ground (arith, str_eq_refl path)

find-remove :
    (path : Bytes) (files : List (Bytes × Bytes)) → find path (remove path files) ≡ refused 2
unfolding find remove
find-remove path [] = refl
find-remove path ((p, text) ∷ files) = ground (arith, find-remove path files)

find-unlinked :
    (d : Disk) (path : Bytes)
    → (unlink_disk d path).0 ≡ none
    → (e : ℕ) × (find path (unlink_disk d path).1.files ≡ refused e)
unfolding unlink_disk
find-unlinked d path h = (2, ground (arith, find-remove path d.files))

find_errno : (path : Bytes) (files : List (Bytes × Bytes)) → find path files ≢ refused 0
unfolding find
find_errno path [] = λ h. ground arith
find_errno path ((p, text) ∷ files) = ground (arith, find_errno path files)

write_errno : (d : Disk) (path text : Bytes) → (write_disk d path text).0 ≢ some 0
unfolding write_disk
write_errno d path text = ground arith

unlink_errno : (d : Disk) (path : Bytes) → (unlink_disk d path).0 ≢ some 0
unfolding unlink_disk
unlink_errno d path = ground arith

kill_errno : (d : Disk) (p s : ℕ) → (kill_disk d p s).0 ≢ some 0
unfolding kill_disk
kill_errno d p s = ground arith

pub memory-IsPosix : IsPosix memory
unfolding memory
memory-IsPosix = record {
  read_written = find-written;
  read_unlinked = find-unlinked;
  read_errno = λ d path. find_errno path d.files;
  write_errno = write_errno;
  mkdir_errno = λ d path h. ground arith;
  unlink_errno = unlink_errno;
  kill_errno = kill_errno;
}

str_eq-ne : (p q : Bytes) → p ≢ q → str_eq q p ≡ false
str_eq-ne p q h = elim (Bool-cases (str_eq q p)) [
  | inl same ↦ absurd (h (sym (str_eq_sound q p same)))
  | inr other ↦ other
]

find-write_other :
    (d : Disk) (path text other : Bytes)
    → path ≢ other
    → find other (write_disk d path text).1.files ≡ find other d.files
unfolding write_disk find
find-write_other d path text other h = ground (arith, str_eq-ne path other h)

find-write_failed :
    (d : Disk) (path text : Bytes) (e : ℕ)
    → (write_disk d path text).0 ≡ some e
    → find path (write_disk d path text).1.files ≡ find path d.files
unfolding write_disk
find-write_failed d path text e h = ground arith

-- An item that is removed from in front of `other`.
find-remove_other :
    (path other : Bytes) (files : List (Bytes × Bytes))
    → path ≢ other
    → find other (remove path files) ≡ find other files
unfolding find remove
find-remove_other path other [] h = refl
find-remove_other path other ((p, text) ∷ files) h = elim (Bool-cases (str_eq path p)) [
  | inl here ↦ rw here (
      ground (
        arith,
        find-remove_other path other files h,
        ap (str_eq other) (str_eq_sound path p here),
        str_eq-ne path other h,
      ))
  | inr there ↦ rw there (ground (arith, find-remove_other path other files h))
]

find-unlink_other :
    (d : Disk) (path other : Bytes)
    → path ≢ other
    → find other (unlink_disk d path).1.files ≡ find other d.files
unfolding unlink_disk
find-unlink_other d path other h = ground (arith, find-remove_other path other d.files h)

find-kill :
    (d : Disk) (p s : ℕ) (path : Bytes) → find path (kill_disk d p s).1.files ≡ find path d.files
unfolding kill_disk
find-kill d p s path = ground arith

pub memory-IsFiles : IsFiles memory
unfolding memory
memory-IsFiles = record {
  cwd_full = λ d dir e. (codes "home", cc);
  write_other = find-write_other;
  write_failed = find-write_failed;
  unlink_other = find-unlink_other;
  mkdir_read = λ d path other. refl;
  kill_read = find-kill;
}
