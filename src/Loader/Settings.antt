-- ===== src/Loader/Settings.antt =====
-- The configuration as libconfig++ gives it to the program. The library is not part of the
-- repository: a section is known by what `lookupValue` finds in it, `none` where a setting is missing
-- or of another type, which leaves the caller's variable as it was.
use robotd.Common.{ℕ, Bytes, ℤ, Bool, Option, ◌≡◌, refl, ◌⊎◌, inl, inr}

pub record Section : Type 0 where
  pub int_value : Bytes → Option ℤ
  pub uint_value : Bytes → Option ℕ
  pub string_value : Bytes → Option Bytes

-- `root[name]`; `none` is the exception for a missing section.
abbrev pub Root : Type 0
Root = Bytes → Option Section

-- `readFile`, with the two exceptions that the loader catches.
pub data Parsed : Type 0 where
  io_error parse_error : Parsed
  parsed : Root → Parsed

pub parsed-cases :
    (p : Parsed) → (p ≡ io_error) ⊎ (p ≡ parse_error) ⊎ ((root : Root) × (p ≡ parsed root))
parsed-cases io_error = inl refl
parsed-cases parse_error = inr (inl refl)
parsed-cases (parsed root) = inr (inr (root, refl))

-- What else the loader asks of its surroundings: `readFile`, `hardware_concurrency`, whether a file
-- can be opened for appending, and whether the sink of the log can be made, whose constructor opens
-- the file of that name with `.log` behind it and else throws.
pub record Env : Type 0 where
  pub read_config : Bytes → Parsed
  pub hardware : ℕ
  pub can_append : Bytes → Bool
  pub can_sink : Bytes → Bool
