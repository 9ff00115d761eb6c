-- ===== src/Loader/Class/Frame.antt =====
-- What the section Daemon leaves alone in the loader: where the errors go, and what the slaves hold.
use robotd.Common.{ℕ, ◌≡◌, Bytes, Bool, List, arith}
use robotd.Loader.Settings.{Section, Env}
use robotd.Loader.State.{Loader, Keeps, Keeps-bind}
use robotd.Loader.Config.{
  SlaveLoader, load_thread_count, load_log_name, load_level, load_log_size, load_ram_size, announce,
  load_section,
}

module _ {S : Type 0} where
  -- Where the errors go, and what the slave classes hold.
  pub record Same (b : Bool) (x : S) (s : Loader S) : Type 0 where
    pub same_file : s.log_to_file ≡ b
    pub same_slaves : s.slaves ≡ x

  module _ (b : Bool) (x : S) where
    load_thread_count-Same :
        (max : ℕ) (section : Section) → Keeps (Same b x) (load_thread_count {S = S} max section)
    unfolding load_thread_count
    load_thread_count-Same max section = record { kept = λ s h. ground arith }

    load_log_name-Same :
        (can : Bytes → Bool) (section : Section)
        → Keeps (Same b x) (load_log_name {S = S} can section)
    unfolding load_log_name
    load_log_name-Same can section = record { kept = λ s h. ground arith }

    load_level-Same : (section : Section) → Keeps (Same b x) (load_level {S = S} section)
    unfolding load_level
    load_level-Same section = record { kept = λ s h. ground arith }

    load_log_size-Same : (section : Section) → Keeps (Same b x) (load_log_size {S = S} section)
    unfolding load_log_size
    load_log_size-Same section = record { kept = λ s h. ground arith }

    load_ram_size-Same : (section : Section) → Keeps (Same b x) (load_ram_size {S = S} section)
    unfolding load_ram_size
    load_ram_size-Same section = record { kept = λ s h. ground arith }

    announce-Same :
        (can : Bytes → Bool) (tag name ram level : Bytes) (size : ℕ)
        → Keeps (Same b x) (announce {S = S} can tag name ram level size)
    unfolding announce
    announce-Same can tag name ram level size = record { kept = λ s h. ground arith }

    pub load_section-Same :
        (env : Env) (tag : Bytes) (first : SlaveLoader S) (rest : List (SlaveLoader S))
        (section : Section)
        → Keeps (Same b x) (load_section env tag first rest section)
    unfolding load_section
    load_section-Same env tag first rest section =
        Keeps-bind _ _ (load_thread_count-Same _ section) λ _.
          Keeps-bind _ _ (load_log_name-Same env.can_append section) λ name.
            Keeps-bind _ _ (load_level-Same section) λ level.
              Keeps-bind _ _ (load_log_size-Same section) λ size.
                Keeps-bind _ _ (load_ram_size-Same section)
                  λ ram. announce-Same env.can_sink tag name ram level size
