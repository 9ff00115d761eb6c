-- ===== src/Loader/Config/Slaves.antt =====
-- The recursion over the slaves.
use robotd.Common.{◌≡◌, ◌↔◌, Bool, pos, List, [], ◌∷◌, arith}
use robotd.Loader.Level.{Level}
use robotd.Loader.Settings.{Root}
use robotd.Loader.Config.{returned, SlaveLoader, load_slave_config}

module _ {S : Type 0} (root : Root) (level : Level) (to_file : Bool) where
  -- Each slave in turn returns 0, from the state that those before it left.
  abbrev pub AllZero : List (SlaveLoader S) → S → Type 0
  AllZero [] s = Unit
  AllZero (l ∷ ls) s =
      ((l root level to_file s).0 ≡ returned (pos 0)) × AllZero ls (l root level to_file s).1

  -- The load of the slaves returns 0 exactly when each slave, run in turn from the state that
  -- those before it left, returns 0.
  pub load_slave_config_iff :
      (first : SlaveLoader S) (rest : List (SlaveLoader S)) (s : S)
      → ((load_slave_config first rest root level to_file s).0 ≡ returned (pos 0))
        ↔ AllZero (first ∷ rest) s
  unfolding load_slave_config
  load_slave_config_iff first [] s = (λ h. (h, tt), λ h. h.0)
  load_slave_config_iff first (second ∷ rest) s =
      ground (arith, load_slave_config_iff second rest (first root level to_file s).1)
