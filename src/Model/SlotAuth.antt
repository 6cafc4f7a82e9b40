-- ===== src/Model/SlotAuth.antt =====
-- How a room authenticates the people who connect: `SlotAuth` of puna-core/src/model/room.rs.
use puna.Common.{◌≡◌, refl, String, Option, some, str_eq, if◌then◌else◌}

pub data SlotAuth : Type 0 where
  none room per_slot : SlotAuth

unfoldable pub as_sql : SlotAuth → String
as_sql SlotAuth.none = "none"
as_sql SlotAuth.room = "room"
as_sql SlotAuth.per_slot = "per_slot"

unfoldable pub parse : String → Option SlotAuth
parse raw =
    if str_eq raw "none"
    then some SlotAuth.none
    else if str_eq raw "room"
    then some SlotAuth.room
    else if str_eq raw "per_slot"
    then some SlotAuth.per_slot
    else Option.none

pub parse-as_sql : (s : SlotAuth) → parse (as_sql s) ≡ some s
unfolding parse as_sql
parse-as_sql SlotAuth.none = refl
parse-as_sql _ = refl
