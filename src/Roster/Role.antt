-- ===== src/Roster/Role.antt =====
-- The ladder of roles in a room: `RoomRole` of puna-core/src/model/member.rs.
use puna.Common.{Bool, true, false, Option, none, some, String, if◌then◌else◌, str_eq}

pub data RoomRole : Type 0 where
  helper organizer : RoomRole

unfoldable pub as_sql : RoomRole → String
as_sql RoomRole.helper = "helper"
as_sql RoomRole.organizer = "organizer"

unfoldable pub parse : String → Option RoomRole
parse raw =
    if str_eq raw "helper"
    then some RoomRole.helper
    else if str_eq raw "organizer"
    then some RoomRole.organizer
    else none

-- The derived order.
abbrev pub role_le : RoomRole → RoomRole → Bool
role_le RoomRole.helper _ = true
role_le RoomRole.organizer RoomRole.organizer = true
role_le RoomRole.organizer RoomRole.helper = false

-- `GREATEST` of two roles.
abbrev pub greatest : RoomRole → RoomRole → RoomRole
greatest RoomRole.helper r = r
greatest RoomRole.organizer _ = RoomRole.organizer

abbrev pub is_organizer : RoomRole → Bool
is_organizer RoomRole.organizer = true
is_organizer RoomRole.helper = false
