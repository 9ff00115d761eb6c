-- ===== src/Loader/Level/Laws.antt =====
-- `from_str` is the inverse of `to_str` below `off`.
use robotd.Common.{◌≡◌, refl, ◌≢◌, ◌↔◌, Bytes, some, arith, str_eq, str_eq_sound}
use mathlib.Core.Path.{subst}
use robotd.Loader.Level.{Level, trace, off, to_str, from_str}

from_str-to_str : (l : Level) → l ≢ off → from_str (to_str l) ≡ some l
unfolding from_str to_str str_eq
from_str-to_str off h = absurd (h refl)
from_str-to_str trace h = refl
from_str-to_str _ h = refl

from_str_sound : (name : Bytes) (l : Level) → from_str name ≡ some l → (to_str l ≡ name) × (l ≢ off)
unfolding from_str
from_str_sound name l h = ground (arith, str_eq_sound (to_str l) name)

-- A name is accepted as the level l exactly when it is the name of l and l is not off.
pub from_str_iff :
    (name : Bytes) (l : Level) → (from_str name ≡ some l) ↔ ((to_str l ≡ name) × (l ≢ off))
from_str_iff name l =
    (from_str_sound name l, λ (e, h). subst (λ n. from_str n ≡ some l) e (from_str-to_str l h))
