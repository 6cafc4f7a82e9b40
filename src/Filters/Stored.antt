-- ===== src/Filters/Stored.antt =====
-- The rulesets of a room and its slots in the database: `SlotFilter`, `Effective` and the queries of
-- puna-core/src/model/filter.rs, for one room. JSON is the standard of another crate, so its values,
-- the encoding of a ruleset and the reading of one are arguments; an encoding that fails writes
-- nothing and is left out. The table `room_slot_filters` holds rows by slot, at most one each.
pub mod Kept
use puna.Common.{
  ℕ, Bool, true, false, Option, none, some, List, [], ◌∷◌, map, if◌then◌else◌, ◌==◌, ◌&&◌,
  sort_by_key, keep, not, is_none,
}
use mathlib.Core.Option
use puna.Filters.Rule.{Rule}

pub data SlotFilter (F : Type 0) : Type 0 where
  follows exempt : SlotFilter F
  own : List (Rule F) → SlotFilter F

unfoldable pub from_stored : {F : Type 0} → Option (List (Rule F)) → SlotFilter F
from_stored none = SlotFilter.follows
from_stored (some []) = SlotFilter.exempt
from_stored (some (rule ∷ rules)) = SlotFilter.own (rule ∷ rules)

unfoldable pub to_stored : {F : Type 0} → SlotFilter F → Option (List (Rule F))
to_stored SlotFilter.follows = none
to_stored SlotFilter.exempt = some []
to_stored (SlotFilter.own rules) = some rules

unfoldable pub diverges : {F : Type 0} → SlotFilter F → Bool
diverges SlotFilter.follows = false
diverges _ = true

pub record Effective (F : Type 0) : Type 0 where
  pub rules : List (Rule F)
  pub from_room : Bool

unfoldable pub effective : {F : Type 0} → List (Rule F) → SlotFilter F → Effective F
effective room SlotFilter.follows = record { rules = room; from_room = true }
effective room SlotFilter.exempt = record { rules = []; from_room = false }
effective room (SlotFilter.own rules) = record { rules = rules; from_room = false }

-- What the database holds of a room's filters: its row of `room_filters`, and its rows of
-- `room_slot_filters` by slot.
pub record StoredFilters (J : Type 0) : Type 0 where
  pub room : Option J
  pub slots : List (ℕ × J)

-- The column `rules` of a slot's row.
unfoldable pub rules_at : {J : Type 0} → ℕ → List (ℕ × J) → Option J
rules_at slot [] = none
rules_at slot ((k, rules) ∷ rows) =
    let rest = rules_at slot rows in if k == slot then some rules else rest

-- `INSERT … ON CONFLICT DO UPDATE`.
unfoldable pub upsert : {J : Type 0} → ℕ → J → List (ℕ × J) → List (ℕ × J)
upsert slot rules [] = (slot, rules) ∷ []
upsert slot rules ((k, old) ∷ rows) =
    let rest = upsert slot rules rows in if k == slot then (slot, rules) ∷ rows else (k, old) ∷ rest

-- `DELETE`.
unfoldable pub delete_at : {J : Type 0} → ℕ → List (ℕ × J) → List (ℕ × J)
delete_at slot [] = []
delete_at slot ((k, old) ∷ rows) =
    let rest = delete_at slot rows in if k == slot then rest else (k, old) ∷ rest

module _ {F J : Type 0} (decode : J → Option (List (Rule F))) where
  unfoldable pub parse_lossy : J → List (Rule F)
  parse_lossy stored = elim (decode stored) [ none ↦ [] | some rules ↦ rules ]

  unfoldable pub room_filter : StoredFilters J → Option (List (Rule F))
  unfolding parse_lossy
  room_filter s = Option.map parse_lossy s.room

  unfoldable pub slot_filter : StoredFilters J → ℕ → SlotFilter F
  unfolding parse_lossy from_stored rules_at
  slot_filter s slot = from_stored (Option.map parse_lossy (rules_at slot s.slots))

  -- `ORDER BY slot_number`.
  abbrev pub by_slot : ℕ × J → Option ℕ × ℕ
  by_slot row = (none, row.0)

  abbrev pub own_state : ℕ × J → ℕ × SlotFilter F
  unfolding parse_lossy from_stored
  own_state row = (row.0, from_stored (some (parse_lossy row.1)))

  unfoldable pub slot_filters : StoredFilters J → List (ℕ × SlotFilter F)
  slot_filters s = map own_state (sort_by_key by_slot s.slots)

unfoldable pub clear_room_filter : {J : Type 0} → StoredFilters J → StoredFilters J
clear_room_filter s = record s { room = none }

module _ {F J : Type 0} (encode : List (Rule F) → J) where
  unfoldable pub set_room_filter : StoredFilters J → List (Rule F) → StoredFilters J
  unfolding clear_room_filter
  set_room_filter s [] = clear_room_filter s
  set_room_filter s (rule ∷ rules) = record s { room = some (encode (rule ∷ rules)) }

  abbrev pub store : StoredFilters J → ℕ → Option (List (Rule F)) → StoredFilters J
  store s slot none = record s { slots = delete_at slot s.slots }
  store s slot (some rules) = record s { slots = upsert slot (encode rules) s.slots }

  unfoldable pub set_slot_filter : StoredFilters J → ℕ → SlotFilter F → StoredFilters J
  unfolding to_stored upsert delete_at
  set_slot_filter s slot state = store s slot (to_stored state)

abbrev is_empty : {A : Type 0} → List A → Bool
is_empty [] = true
is_empty (x ∷ xs) = false

-- A call of `set_filter`: for the room or a slot, with a ruleset or with none (a DELETE).
pub record Call (F : Type 0) : Type 0 where
  pub slot : Option ℕ
  pub rules : Option (List (Rule F))

abbrev pub for_slot : {F : Type 0} → ℕ × SlotFilter F → Call F
unfolding to_stored
for_slot (slot, state) = record { slot = some slot; rules = to_stored state }

-- The calls of `reapply_filters` (steps.rs): none if the filters could not be read, if there are none
-- or if the room cannot be reached. A call that fails is reported, and the next one is made.
unfoldable pub reapply_filters :
    {F : Type 0} → Option (Option (List (Rule F)) × List (ℕ × SlotFilter F)) → Bool → List (Call F)
reapply_filters none reachable = []
reapply_filters (some (room_rules, slots)) reachable =
    if is_none room_rules && is_empty slots
    then []
    else if not reachable
    then []
    else record { slot = none; rules = room_rules } ∷ map for_slot slots
