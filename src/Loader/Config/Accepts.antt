-- ===== src/Loader/Config/Accepts.antt =====
-- What an option of the section Daemon that does not stop the load is like.
use robotd.Common.{
  ℕ, ◌≡◌, refl, ◌⊎◌, inl, inr, Bytes, codes, ℤ, pos, negsuc, Bool, true, none, some, [], ◌∷◌, arith,
  Bool-cases, Option-cases,
}
use robotd.Loader.Level.{Level, to_str, from_str, lower}
use robotd.Loader.Size.{size_parse}
use robotd.Loader.Settings.{Section}
use robotd.Loader.State.{Loader, next, next-bind}
use robotd.Loader.Config.{
  or_else, is_thread_count, load_thread_count, load_log_name, load_level, default_level, set_level,
  load_log_size, load_ram_size, announce,
}
use robotd.Loader.Config.Result.{DefaultLevel}

ℤ-cases : (z : ℤ) → ((n : ℕ) × (z ≡ pos n)) ⊎ ((n : ℕ) × (z ≡ negsuc n))
ℤ-cases (pos n) = inl (n, refl)
ℤ-cases (negsuc n) = inr (n, refl)

Bytes-cases : (s : Bytes) → (s ≡ []) ⊎ ((c : ℕ) × (t : Bytes) × (s ≡ c ∷ t))
Bytes-cases [] = inl refl
Bytes-cases (c ∷ t) = inr (c, t, refl)

module _ {S : Type 0} where
  pub next-load_thread_count :
      (max : ℕ) (section : Section) (s : Loader S) (u : Unit)
      → (load_thread_count max section s).0 ≡ next u
      → (n : ℕ) × (or_else (section.int_value (codes "ThreadCount")) (pos s.thread_count) ≡ pos n)
        × (is_thread_count (pos n) max ≡ true)
  unfolding load_thread_count
  next-load_thread_count max section s u h =
      elim (ℤ-cases (or_else (section.int_value (codes "ThreadCount")) (pos s.thread_count))) [
        | inl (n, e) ↦ elim (Bool-cases (is_thread_count (pos n) max)) [
          | inl fits ↦ (n, e, fits)
          | inr too_many ↦ absurd (ground (arith, e, too_many))
        ]
        | inr (n, e) ↦ absurd (ground (arith, e))
      ]

  pub next-load_log_name :
      (can : Bytes → Bool) (section : Section) (s : Loader S) (x : Bytes)
      → (load_log_name can section s).0 ≡ next x
      → (c : ℕ) × (name : Bytes) × (or_else (section.string_value (codes "LogName")) [] ≡ c ∷ name)
        × (can (c ∷ name) ≡ true)
  unfolding load_log_name
  next-load_log_name can section s x h =
      elim (Bytes-cases (or_else (section.string_value (codes "LogName")) [])) [
        | inl e ↦ absurd (ground (arith, e))
        | inr (c, name, e) ↦ elim (Bool-cases (can (c ∷ name))) [
          | inl opens ↦ (c, name, e, opens)
          | inr closed ↦ absurd (ground (arith, e, closed))
        ]
      ]

  next-default_level :
      (s : Loader S) (level : Level)
      → (default_level s).0 ≡ next level
      → DefaultLevel s.log_to_file s.log level
  unfolding default_level
  next-default_level s level h = ground arith

  next-set_level :
      (name : Bytes) (s : Loader S) (x : Bytes)
      → (set_level name s).0 ≡ next x
      → (level : Level) × (from_str name ≡ some level)
  unfolding set_level
  next-set_level name s x h = elim (Option-cases (from_str name)) [
    | inl e ↦ absurd (ground (arith, e))
    | inr (level, e) ↦ (level, e)
  ]

  -- The level that stands, and the one that is named.
  pub next-load_level :
      (section : Section) (s : Loader S) (x : Bytes)
      → (load_level section s).0 ≡ next x
      → (default : Level) × (level : Level) × DefaultLevel s.log_to_file s.log default
        × (from_str (lower (or_else (section.string_value (codes "LogLevel")) (to_str default)))
            ≡ some level)
  unfolding load_level
  next-load_level section s x h =
      let name =
        λ (l : Level). lower (or_else (section.string_value (codes "LogLevel")) (to_str l)) in
      let (default, e, rest) = next-bind default_level (λ l. set_level (name l)) s x h in
      let (level, named) = next-set_level (name default) (default_level s).1 x rest in
      (default, level, next-default_level s default e, named)

  pub next-load_log_size :
      (section : Section) (s : Loader S) (x : ℕ)
      → (load_log_size section s).0 ≡ next x
      → (size : ℕ) × (size_parse (or_else (section.string_value (codes "Size")) []) 0
          ≡ (none, size))
  unfolding load_log_size
  next-load_log_size section s x h =
      let (error, size) = size_parse (or_else (section.string_value (codes "Size")) []) 0 in
      (size, ground arith)

  pub next-load_ram_size :
      (section : Section) (s : Loader S) (x : Bytes)
      → (load_ram_size section s).0 ≡ next x
      → (ram : ℕ) × (size_parse (or_else (section.string_value (codes "MaxRamUse")) []) s.ramsize
          ≡ (none, ram))
  unfolding load_ram_size
  next-load_ram_size section s x h =
      let (error, ram) =
        size_parse (or_else (section.string_value (codes "MaxRamUse")) []) s.ramsize in
      (ram, ground arith)

  pub next-announce :
      (can : Bytes → Bool) (tag name ram level : Bytes) (size : ℕ) (s : Loader S)
      → (announce can tag name ram level size s).0 ≡ next tt
      → can name ≡ true
  unfolding announce
  next-announce can tag name ram level size s h = ground arith
