-- ===== src/TcpServer/Config.antt =====
-- The static settings of slaves/test/tcp_server.cpp and their `load_config`. Of its messages only the
-- one is described whose format throws.
pub mod Loads
use robotd.Common.{
  ℕ, ◌%◌, ◌^◌, ◌<◌, ◌≡◌, ◌↔◌, Bytes, codes, pos, Bool, true, false, none, some, leb, ◌==◌, ltb,
  if◌then◌else◌, arith, ◌≤◌,
}
use robotd.Loader.Level.{Level, warn, number}
use robotd.Loader.Size.{failure}
use robotd.Loader.Settings.{Section, Root}
use robotd.Loader.Config.{Loaded, returned, thrown, SlaveLoader, or_else}

pub record Settings : Type 0 where
  pub port : ℕ  -- uint16_t
  pub address : Bytes

abbrev pub defaults : Settings
defaults = record { port = 3333; address = codes "127.0.0.1" }

-- The port that the section asks for, in 32 bits; the present one if it asks for none.
abbrev pub asked_port : Section → Settings → ℕ
asked_port section s = or_else (section.uint_value (codes "Port")) s.port

abbrev pub asked_address : Section → Settings → Bytes
asked_address section s = or_else (section.string_value (codes "Address")) s.address

-- Whether a logger at this level writes a warning.
abbrev warns : Level → Bool
warns level = leb (number level) (number warn)

-- The format of the warning has a place more than arguments, and spdlog throws if it writes it.
abbrev too_great : Level → Bool → Loaded
too_great level false = returned (failure false)
too_great level true = if warns level then thrown else returned (failure true)

-- The address is stored before the port is looked at.
load_section : Section → Level → Bool → Settings → Loaded × Settings
load_section section level to_file s =
    let tmp = asked_port section s in
    let t = record s { address = asked_address section s } in
    if tmp == 0
    then (returned (failure to_file), t)
    else if ltb 65535 tmp
    then (too_great level to_file, t)
    else (returned (pos 0), record t { port = tmp % 2 ^ 16 })

unfoldable pub load_config : SlaveLoader Settings
unfolding load_section
load_config root level to_file s = elim (root (codes "TCPServer")) [
  | none ↦ (thrown, s)
  | some section ↦ load_section section level to_file s
]

abbrev pub IsPort : ℕ → Type 0
IsPort p = (0 < p) × (p ≤ 65535)

-- With a section TCPServer the load returns 0 exactly when the port asked for, or the present one
-- if none is asked for, lies in 1 to 65535.
pub load_config_iff :
    (root : Root) (level : Level) (to_file : Bool) (s : Settings) (section : Section)
    → root (codes "TCPServer") ≡ some section
    → ((load_config root level to_file s).0 ≡ returned (pos 0)) ↔ IsPort (asked_port section s)
unfolding load_config
load_config_iff root level to_file s section e = ground arith

-- Whether the load succeeds or not, a port in 1 to 65535 remains one.
pub load_config-IsPort :
    (root : Root) (level : Level) (to_file : Bool) (s : Settings)
    → IsPort s.port
    → IsPort (load_config root level to_file s).1.port
unfolding load_config
load_config-IsPort root level to_file s h = ground arith
