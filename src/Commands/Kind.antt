-- ===== src/Commands/Kind.antt =====
-- The commands of the console, the role that each needs and the slot that it acts on, and how the
-- answer of a room ends one: `RoomCommand` and `Disposition` of puna-core/src/model/command.rs.
use puna.Common.{ℕ, Bool, Option, none, some, String, if◌then◌else◌, ◌&&◌, ◌==◌, leb, ℤ}
use puna.Roster.Role.{RoomRole}
use puna.Commands.Probe.{ProbeError}

pub data SlotStatus : Type 0 where
  unknown connected ready playing goal : SlotStatus

unfoldable pub as_str : SlotStatus → String
as_str SlotStatus.unknown = "unknown"
as_str SlotStatus.connected = "connected"
as_str SlotStatus.ready = "ready"
as_str SlotStatus.playing = "playing"
as_str SlotStatus.goal = "goal"

pub data RoomCommand : Type 0 where
  status : RoomCommand
  say : String → RoomCommand
  countdown : ℤ → RoomCommand
  release collect : ℕ → RoomCommand
  send_item : ℕ → String → RoomCommand
  hint hint_location : ℕ → String → Bool → RoomCommand
  send_location : ℕ → String → RoomCommand
  send_multiple : ℕ → String → ℤ → RoomCommand
  allow_release : ℕ → Bool → RoomCommand
  alias : ℕ → String → RoomCommand
  set_option : String → String → RoomCommand
  rotate_password : ℕ → RoomCommand
  lock_slot : ℕ → Bool → RoomCommand
  kick : ℕ → Option String → RoomCommand
  apply_filters : Option ℕ → RoomCommand
  set_status : ℕ → SlotStatus → RoomCommand

unfoldable pub required_role : RoomCommand → RoomRole
required_role (RoomCommand.apply_filters none) = RoomRole.organizer
required_role (RoomCommand.apply_filters (some slot)) = RoomRole.helper
required_role (RoomCommand.set_option name value) = RoomRole.organizer
required_role _ = RoomRole.helper

unfoldable pub target_slot : RoomCommand → Option ℕ
target_slot RoomCommand.status = none
target_slot (RoomCommand.say text) = none
target_slot (RoomCommand.countdown seconds) = none
target_slot (RoomCommand.set_option name value) = none
target_slot (RoomCommand.release slot) = some slot
target_slot (RoomCommand.collect slot) = some slot
target_slot (RoomCommand.send_item slot item) = some slot
target_slot (RoomCommand.send_multiple slot item amount) = some slot
target_slot (RoomCommand.hint slot item force) = some slot
target_slot (RoomCommand.hint_location slot location force) = some slot
target_slot (RoomCommand.send_location slot location) = some slot
target_slot (RoomCommand.allow_release slot allowed) = some slot
target_slot (RoomCommand.alias slot text) = some slot
target_slot (RoomCommand.kick slot reason) = some slot
target_slot (RoomCommand.rotate_password slot) = some slot
target_slot (RoomCommand.lock_slot slot locked) = some slot
target_slot (RoomCommand.set_status slot to) = some slot
target_slot (RoomCommand.apply_filters slot) = slot

-- `command_state` of the database.
pub data CommandState : Type 0 where
  pending running ok failed rejected : CommandState

-- Why a command has no answer, for the text that is written of it.
pub data Why : Type 0 where
  too_old not_running unreadable_filter unreadable_room deployment_gone no_password : Why
  unreadable_deployment secret_not_written restarted : Why
  filter_refused password_refused room_failed : ProbeError → Why

pub data Disposition : Type 0 where
  answered malformed rate_limited failed : Disposition

unfoldable pub disposition_state : Disposition → CommandState
disposition_state Disposition.answered = CommandState.ok
disposition_state _ = CommandState.failed

unfoldable pub from_status : ℕ → Disposition
from_status n =
    if leb 200 n && leb n 299
    then Disposition.answered
    else if n == 400
    then Disposition.malformed
    else if n == 429
    then Disposition.rate_limited
    else Disposition.failed
