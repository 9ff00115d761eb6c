-- ===== src/Cli/Options.antt =====
-- The option table of daemon/cli_parser.cpp, and the usage text that is made from it.
use robotd.Directories.{package_name, package_string}
use robotd.Common.{
  ℕ, Bytes, codes, Bool, true, false, Option, none, some, List, [], ◌∷◌, ◌++◌, get_elem?,
  if◌then◌else◌,
}

pub record Keys : Type 0 where
  pub key : Bytes
  pub need_value : Bool

abbrev keys : Bytes → Bool → Keys
keys k v = record { key = k; need_value = v }

abbrev pub options : List Keys
options =
    keys (codes "load") true
    ∷ keys (codes "reload") false
    ∷ keys (codes "restart") false
    ∷ keys (codes "stop") false
    ∷ keys (codes "status") false
    ∷ keys (codes "help") false
    ∷ keys [] false
    ∷ []

abbrev key_or_empty : Option Keys → Bytes
key_or_empty none = []
key_or_empty (some k) = k.key

-- `options[i].key`
abbrev pub option_key : ℕ → Bytes
option_key i = key_or_empty (get_elem? options i)

-- The loop of `false_parameters`: a line for each option, up to the empty key.
pub option_lines : List Keys → List Bytes
option_lines [] = []
option_lines (k ∷ rest) =
    let lines = option_lines rest in
    elim k.key [
      | [] ↦ []
      | c ∷ s ↦
          (codes "\t"
            ++ (k.key ++ (if k.need_value then codes " [filename.cfg]\n" else codes " \r\n")))
          ∷ lines
    ]

-- `false_parameters`
unfoldable pub usage_lines : List Bytes
unfolding option_lines
usage_lines =
    (package_string ++ codes "\n")
    ∷ (codes "Usage: " ++ (package_name ++ codes "  <option>\n\n"))
    ∷ codes "Options:\n"
    ∷ option_lines options

-- `help`
abbrev pub help_lines : List Bytes
help_lines =
    (package_string ++ codes " - cross-platform UNIX daemonized server.\r\n")
    ∷ codes "License GNU GPLv2 <http://www.gnu.org/licenses/old-licenses/gpl-2.0.html>\r\n"
    ∷ codes "This program can be used for development your own daemon.\r\n"
    ∷ codes "This is free software: you are free to change and redistribute it.\r\n"
    ∷ codes "There is NO WARRANTY, to the extent permitted by law.\r\n"
    ∷ codes "Written by Igor Diakonov. Compiled 21.01.2016.\r\n\r\n"
    ∷ (codes "Usage: " ++ (package_name ++ codes " <option>\r\n\r\n"))
    ∷ codes "Options:\r\n"
    ∷ codes "\thelp                  show this message\r\n"
    ∷ codes "\tload [filename.cfg]   run daemon with configuration loaded from filename.cfg.\r\n"
    ∷ codes
        "\t                      Note: It can be only one copy of the daemon run in the system.\r\n"
    ∷ codes "\treload                reload configuration file without stopping daemon.\r\n"
    ∷ codes "\tstop                  terminate daemon.\r\n"
    ∷ codes "\trestart               restart daemon with the same configuration.\r\n"
    ∷ codes
        "\tstatus                show status of the daemon. If daemon is run you will see its PID.\r\n"
    ∷ []
