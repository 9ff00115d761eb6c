-- ===== src/Loader/Level.antt =====
-- The log levels: `level_enum` and its names of include/spdlog/common.h, and `from_str`, which
-- loader/loader_impl.hpp adds.
pub mod Laws
use robotd.Common.{
  ℕ, zero, suc, Bytes, codes, Option, none, some, List, [], ◌∷◌, ltb, if◌then◌else◌, str_eq, map,
  ◌+◌, leb, ◌&&◌,
}

pub data Level : Type 0 where
  trace debug info notice warn err critical alert emerg off : Level

abbrev pub number : Level → ℕ
number trace = 0
number debug = 1
number info = 2
number notice = 3
number warn = 4
number err = 5
number critical = 6
number alert = 7
number emerg = 8
number off = 9

-- `level_names[l]`, which is `to_str(l)`
unfoldable pub to_str : Level → Bytes
to_str trace = codes "trace"
to_str debug = codes "debug"
to_str info = codes "info"
to_str notice = codes "notice"
to_str warn = codes "warning"
to_str err = codes "error"
to_str critical = codes "critical"
to_str alert = codes "alert"
to_str emerg = codes "emerg"
to_str off = codes "off"

-- `(level_enum)(l + 1)`; the loop does not go past `off`.
abbrev succ_level : Level → Level
succ_level trace = debug
succ_level debug = info
succ_level info = notice
succ_level notice = warn
succ_level warn = err
succ_level err = critical
succ_level critical = alert
succ_level alert = emerg
succ_level emerg = off
succ_level off = off

-- The loop from `l` up to `off`. Ten rounds are enough, since there are ten levels.
search_level : ℕ → Level → Bytes → Option Level
search_level zero l name = none
search_level (suc fuel) l name =
    let rest = search_level fuel (succ_level l) name in
    if ltb (number l) (number off) then (if str_eq (to_str l) name then some l else rest) else none

-- `none` is the result -1, which leaves the level as it was.
unfoldable pub from_str : Bytes → Option Level
unfolding search_level
from_str name = search_level 10 trace name

-- `::tolower` in the C locale.
abbrev pub tolower : ℕ → ℕ
tolower c = if leb b'A' c && leb c b'Z' then c + 32 else c

unfoldable pub lower : Bytes → Bytes
lower = map tolower
