-- ===== src/Daemon/Reload.antt =====
-- `reload_config` of daemon/daemon_impl.hpp.
use robotd.Common.{
  ◌≡◌, ◌≢◌, refl, ◌++◌, Bytes, codes, pos, List, [], ◌∷◌, ◌==◌, if◌then◌else◌, arith, All,
}
use robotd.Directories.{config_load}
use robotd.Posix.{Os, Opened, opened, refused, IsPosix}
use robotd.Loader.Settings.{Env}
use robotd.Loader.State.{Loader}
use robotd.Loader.Config.{Loaded, SlaveLoader, daemon_load_config}
use robotd.Cli.State.{Process}
use robotd.Cli.Load.{ret, option_load}
use robotd.Cli.Load.Saved.{option_load-IsSaved}

-- `std::getline`
unfoldable pub first_line : Bytes → Bytes
first_line [] = []
first_line (c ∷ s) = let rest = first_line s in if c == 10 then [] else c ∷ rest

-- What `getline` leaves in `str`: the empty string if the file cannot be opened.
abbrev pub restored : Opened → Bytes
restored (opened text) = first_line text
restored (refused e) = []

module _ (os : Os) (env : Env) (tag : Bytes) {S : Type 0} (first : SlaveLoader S)
    (rest : List (SlaveLoader S)) where
  unfoldable pub reload_config : os.World → Loader S → Loaded × Loader S
  reload_config w s = daemon_load_config env tag first rest (restored (os.read w config_load)) s

abbrev pub IsOneLine : Bytes → Type 0
IsOneLine = All (λ c. c ≢ 10)

pub first_line-append : (s : Bytes) → IsOneLine s → first_line (s ++ codes "\n") ≡ s
unfolding first_line
first_line-append [] h = refl
first_line-append (c ∷ s) (n, h) = ground (arith, first_line-append s h)

-- On a system that is IsPosix, after a successful option_load that stored a path without a line
-- break, reload_config loads that very path.
pub reload_config-option_load :
    {S : Type 0} (os : Os) (env : Env) (tag : Bytes) (first : SlaveLoader S)
    (rest : List (SlaveLoader S)) (s : Process os) (l : Loader S)
    → IsPosix os
    → (option_load os s).0 ≡ ret (pos 0)
    → IsOneLine (option_load os s).1.config_file
    → reload_config os env tag first rest (option_load os s).1.world l
      ≡ daemon_load_config env tag first rest (option_load os s).1.config_file l
unfolding reload_config
reload_config-option_load os env tag first rest s l posix done one =
    rw (option_load-IsSaved os posix s done, first_line-append (option_load os s).1.config_file one)
