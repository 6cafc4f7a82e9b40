-- ===== src/Filters/Direction.antt =====
-- `Direction` of puna-core/src/model/filter.rs.
use puna.Common.{Bool, true, false, Option, String, List, [], ◌∷◌, str_eq, find_first}

pub data Direction : Type 0 where
  from_slot to_slot : Direction

abbrev pub all : List Direction
all = Direction.from_slot ∷ Direction.to_slot ∷ []

unfoldable pub as_str : Direction → String
as_str Direction.from_slot = "from_slot"
as_str Direction.to_slot = "to_slot"

unfoldable pub parse : String → Option Direction
unfolding as_str
parse value = find_first (λ d. str_eq (as_str d) value) all

abbrev pub is_from_slot : Direction → Bool
is_from_slot Direction.from_slot = true
is_from_slot Direction.to_slot = false

abbrev pub same_direction : Direction → Direction → Bool
same_direction Direction.from_slot Direction.from_slot = true
same_direction Direction.to_slot Direction.to_slot = true
same_direction _ _ = false
