-- ===== src/Filters/Kind.antt =====
-- `Kind` of puna-core/src/model/filter.rs, and the kinds that it refuses by name.
use puna.Common.{
  ℕ, Bool, true, false, Option, none, some, String, List, [], ◌∷◌, str_eq, find_first, keep, ◌==◌,
}
use puna.Filters.Direction
use puna.Filters.Direction.{Direction, same_direction}

pub data Kind : Type 0 where
  bounce say print_json set set_reply retrieved status_update : Kind

abbrev pub all : List Kind
all =
    Kind.bounce ∷ Kind.say ∷ Kind.print_json ∷ Kind.set ∷ Kind.set_reply ∷ Kind.retrieved
    ∷ Kind.status_update ∷ []

unfoldable pub as_str : Kind → String
as_str Kind.bounce = "bounce"
as_str Kind.say = "say"
as_str Kind.print_json = "print_json"
as_str Kind.set = "set"
as_str Kind.set_reply = "set_reply"
as_str Kind.retrieved = "retrieved"
as_str Kind.status_update = "status_update"

unfoldable pub parse : String → Option Kind
unfolding as_str
parse value = find_first (λ k. str_eq (as_str k) value) all

unfoldable pub travels : Kind → Direction → Bool
travels Kind.bounce d = true
travels Kind.say d = same_direction d Direction.from_slot
travels Kind.set d = same_direction d Direction.from_slot
travels Kind.status_update d = same_direction d Direction.from_slot
travels Kind.print_json d = same_direction d Direction.to_slot
travels Kind.set_reply d = same_direction d Direction.to_slot
travels Kind.retrieved d = same_direction d Direction.to_slot

unfoldable pub travels_text : Kind → String
travels_text Kind.bounce = "from_slot to_slot"
travels_text Kind.say = "from_slot"
travels_text Kind.set = "from_slot"
travels_text Kind.status_update = "from_slot"
travels_text Kind.print_json = "to_slot"
travels_text Kind.set_reply = "to_slot"
travels_text Kind.retrieved = "to_slot"

unfoldable pub directions : Kind → List Direction
unfolding travels
directions k = keep (travels k) Direction.all

unfoldable pub narrows_with : Kind → Option String
narrows_with Kind.bounce = some "tag"
narrows_with Kind.print_json = some "subtype"
narrows_with _ = none

abbrev pub is_bounce : Kind → Bool
is_bounce Kind.bounce = true
is_bounce _ = false

abbrev pub is_print_json : Kind → Bool
is_print_json Kind.print_json = true
is_print_json _ = false

-- The derived `==`, by the place in the declaration.
abbrev pub place : Kind → ℕ
place Kind.bounce = 0
place Kind.say = 1
place Kind.print_json = 2
place Kind.set = 3
place Kind.set_reply = 4
place Kind.retrieved = 5
place Kind.status_update = 6

abbrev pub same_kind : Kind → Kind → Bool
same_kind a b = place a == place b

-- The wire names of `REFUSED_KINDS`.
abbrev pub refused_kinds : List String
refused_kinds = "received_items" ∷ "connected" ∷ "location_info" ∷ "room_update" ∷ []
