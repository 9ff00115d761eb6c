-- ===== src/Cli/State.antt =====
-- The state that daemon/cli_parser.cpp works on: the world, `errno`, the variable `CONFIG_FILE`
-- and what was printed. A formatted message is a constructor with its arguments.
use robotd.Common.{ℕ, ◌++◌, Bytes, Bool, true, false, Option, none, some, List, [], ◌∷◌}
use mathlib.Core.Bool.{cond}
use robotd.Posix.{Os, Opened, opened, refused}

pub data Message : Type 0 where
  usage : List Bytes → Message
  help_text : List Bytes → Message
  load_usage daemon_stopped : Message
  undefined_option : Bytes → Message
  current_config : Bytes → Message
  daemon_runs : ℕ → Message
  stopped_pid : ℕ → Message
  -- the messages on `stderr` that end with the text of `errno`
  no_config no_directory no_config_load bad_pid_file bad_config_load no_unlink : ℕ → Message
  no_load no_reload no_restart no_stop : ℕ → Message

pub record Process (os : Os) : Type 0 where
  pub world : os.World
  pub errno : ℕ
  pub config_file : Bytes
  pub output : List Message

abbrev pub M : Os → Type 0 → Type 0
M os A = Process os → A × Process os

module _ {os : Os} {A B : Type 0} where
  infixl 5 ◌>>=◌ ◌>>◌
  abbrev pub ◌>>=◌ : M os A → (A → M os B) → M os B
  ◌>>=◌ m f s = let (a, t) = m s in f a t

  abbrev pub ◌>>◌ : M os A → M os B → M os B
  m >> n = m >>= λ _. n

module _ {os : Os} {A : Type 0} where
  abbrev pub pure : A → M os A
  pure a s = (a, s)

  -- The conditional of actions.
  infix 1 if◌then◌else◌
  abbrev pub if◌then◌else◌ : Bool → M os A → M os A → M os A
  if◌then◌else◌ b m n s = cond b (m s) (n s)

module _ (os : Os) where
  -- Whether the call succeeded; its error number goes to `errno`.
  abbrev pub note : Option ℕ → Process os → Bool × Process os
  note none s = (true, s)
  note (some e) s = (false, record s { errno = e })

  abbrev pub note_opened : Opened → Process os → Option Bytes × Process os
  note_opened (opened text) s = (some text, s)
  note_opened (refused e) s = (none, record s { errno = e })

  abbrev pub fopen_r : Bytes → M os (Option Bytes)
  fopen_r path s = note_opened (os.read s.world path) s

  abbrev pub fopen_w : Bytes → Bytes → M os Bool
  fopen_w path text s = let (r, w) = os.write s.world path text in note r (record s { world = w })

  abbrev pub stat : Bytes → M os Bool
  stat path s = note (os.stat s.world path) s

  abbrev pub mkdir : Bytes → M os Bool
  mkdir path s = let (r, w) = os.mkdir s.world path in note r (record s { world = w })

  abbrev pub unlink : Bytes → M os Bool
  unlink path s = let (r, w) = os.unlink s.world path in note r (record s { world = w })

  abbrev pub kill : ℕ → ℕ → M os Bool
  kill pid sig s = let (r, w) = os.kill s.world pid sig in note r (record s { world = w })

  abbrev pub getcwd : M os (Option Bytes)
  getcwd s = (os.cwd s.world, s)

  abbrev pub readdir_proc : M os (Option (List Bytes))
  readdir_proc s = (os.proc s.world, s)

  abbrev pub get_errno : M os ℕ
  get_errno s = (s.errno, s)

  abbrev pub get_config_file : M os Bytes
  get_config_file s = (s.config_file, s)

  abbrev pub set_config_file : Bytes → M os Unit
  set_config_file path s = (tt, record s { config_file = path })

  abbrev pub print : Message → M os Unit
  print m s = (tt, record s { output = s.output ++ m ∷ [] })

  -- A message on `stderr` that quotes `errno`.
  abbrev pub complain : (ℕ → Message) → M os Unit
  complain m s = (tt, record s { output = s.output ++ m s.errno ∷ [] })
