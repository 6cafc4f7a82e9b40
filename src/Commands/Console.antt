-- ===== src/Commands/Console.antt =====
-- How a command gets into the queue: `run_inner`, `prepare_command`, `prepare_slot_credential` and
-- `record_lock` of puna-web/src/routes/console.rs, the bulk actions of puna-web/src/routes/bulk.rs and
-- `tell_the_room` of puna-web/src/routes/filters.rs. The database answers every statement; what is drawn at random,
-- the clock, and whether the room's state moved while a password was written are arguments. The journal, the
-- wait for the answer and the pages are left out.
pub mod Statements
pub mod Authorized
pub mod Recorded
use puna.Common.{
  ℕ, suc, Bool, true, false, not, Option, none, some, String, List, [], ◌∷◌, map, if◌then◌else◌,
  ◌&&◌, ◌||◌, str_eq, is_none, find_first,
}
use mathlib.Core.Option
use puna.Model.SlotAuth.{SlotAuth}
use puna.Roster.Role.{RoomRole, role_le}
use puna.Roster.Slots.{Slot, at_slot, rotate_password, set_locked}
use puna.Commands.Kind.{RoomCommand, SlotStatus, required_role}
use puna.Commands.Queue.{Row, enqueue, enqueue_batch}

-- What a request reads of its room.
pub record Room : Type 0 where
  pub id : ℕ
  pub state : String
  pub slot_auth : SlotAuth

-- What is written of the room's own: its slots, and whether `secret_synced_at` is cleared.
pub record Shelf : Type 0 where
  pub slots : List Slot
  pub secret_stale : Bool

-- The tables that a request writes.
pub record Site (J : Type 0) : Type 0 where
  pub rows : List (Row J)
  pub shelf : Shelf

pub data Prepared : Type 0 where
  not_applicable live stored uncertain : Prepared

pub data Refusal : Type 0 where
  conflict not_found : Refusal

pub data Prepare : Type 0 where
  ready : Prepared → Prepare
  refused : Refusal → Prepare

-- Who asks, and what the request draws.
pub record Request : Type 0 where
  pub role : RoomRole
  pub user : ℕ
  pub room : Room
  pub now : ℕ
  pub id : ℕ
  pub ids : ℕ → ℕ
  pub drawn : ℕ → String
  pub moved : Bool

abbrev pub is_up : Room → Bool
is_up room = str_eq room.state "running"

abbrev pub at_rest : Room → Bool
at_rest room = str_eq room.state "idle" || str_eq room.state "failed"

abbrev pub is_per_slot : SlotAuth → Bool
is_per_slot SlotAuth.per_slot = true
is_per_slot _ = false

-- `slot::get` finds nothing.
abbrev pub no_slot : ℕ → ℕ → List Slot → Bool
no_slot room n slots = is_none (find_first (at_slot room n) slots)

unfoldable pub prepare_slot_credential : Request → ℕ → Shelf → Prepare × Shelf
prepare_slot_credential q n shelf =
    if not (is_up q.room) && not (at_rest q.room)
    then (Prepare.refused Refusal.conflict, shelf)
    else if not (is_per_slot q.room.slot_auth)
    then (Prepare.refused Refusal.not_found, shelf)
    else if no_slot q.room.id n shelf.slots
    then (Prepare.refused Refusal.not_found, shelf)
    else (
      Prepare.ready (
          if is_up q.room
          then Prepared.live
          else if q.moved
          then Prepared.uncertain
          else Prepared.stored),
      record {
        slots = (rotate_password q.room.id n (q.drawn n) shelf.slots).1;
        secret_stale = true;
      },
    )

unfoldable pub record_lock : Request → ℕ → Bool → Shelf → Prepare × Shelf
record_lock q n locked shelf =
    if no_slot q.room.id n shelf.slots then (Prepare.refused Refusal.not_found, shelf) else (
      Prepare.ready Prepared.not_applicable,
      record shelf { slots = (set_locked q.now q.room.id n locked q.user shelf.slots).1 },
    )

unfoldable pub prepare_command : Request → RoomCommand → Shelf → Prepare × Shelf
unfolding prepare_slot_credential record_lock
prepare_command q (RoomCommand.rotate_password n) shelf = prepare_slot_credential q n shelf
prepare_command q (RoomCommand.lock_slot n locked) shelf = record_lock q n locked shelf
prepare_command q command shelf = (Prepare.ready Prepared.not_applicable, shelf)

pub data Reply : Type 0 where
  forbidden bad_request nothing_staged not_running stored uncertain unsent : Reply
  refused : Refusal → Reply
  queued : ℕ → Reply

-- The action of the panel, for one slot.
unfoldable pub command_for : String → ℕ → Option RoomCommand
command_for action n =
    if str_eq action "rotate_passwords"
    then some (RoomCommand.rotate_password n)
    else if str_eq action "lock"
    then some (RoomCommand.lock_slot n true)
    else if str_eq action "unlock"
    then some (RoomCommand.lock_slot n false)
    else if str_eq action "kick"
    then some (RoomCommand.kick n none)
    else if str_eq action "release_items"
    then some (RoomCommand.release n)
    else if str_eq action "collect_items"
    then some (RoomCommand.collect n)
    else if str_eq action "set_goaled"
    then some (RoomCommand.set_status n SlotStatus.goal)
    else none

-- `filter_map` with the comparison of the lengths: all of the commands, or none.
unfoldable pub commands_for : String → List ℕ → Option (List RoomCommand)
unfolding command_for
commands_for action [] = some []
commands_for action (n ∷ slots) =
    let rest = commands_for action slots in
    elim (command_for action n) [
      | none ↦ none
      | some c ↦ Option.map (λ commands. c ∷ commands) rest
    ]

-- The loop over `prepare_command`: a refusal ends it, and leaves what was written before.
abbrev pub is_stored : Prepared → Bool
is_stored Prepared.stored = true
is_stored Prepared.uncertain = true
is_stored _ = false

pub data Loop : Type 0 where
  over : Bool → Loop
  broken : Refusal → Loop

unfoldable pub prepare_all : Request → List RoomCommand → Bool → Shelf → Loop × Shelf
unfolding prepare_command
prepare_all q [] stored_only shelf = (Loop.over stored_only, shelf)
prepare_all q (c ∷ commands) stored_only shelf =
    let (prepared, later) = prepare_command q c shelf in
    elim prepared [
      | Prepare.refused r ↦ (Loop.broken r, later)
      | Prepare.ready p ↦ prepare_all q commands (stored_only || is_stored p) later
    ]

module _ {J : Type 0} (encode : RoomCommand → Option J) where
  unfoldable pub queue_one : Request → RoomCommand → Site J → Reply × Site J
  unfolding enqueue
  queue_one q command s =
      let (id, rows) = enqueue encode false q.id q.now q.room.id q.user q.role command s.rows in
      (elim id [ none ↦ Reply.unsent | some i ↦ Reply.queued i ], record s { rows = rows })

  unfoldable pub queue_all : Request → List RoomCommand → Site J → Reply × Site J
  unfolding enqueue_batch
  queue_all q commands s =
      let (batch, rows) =
        enqueue_batch encode false q.id q.ids q.now q.room.id q.user q.role commands s.rows in
      (
        elim batch [
          | none ↦ Reply.unsent
          | some none ↦ Reply.nothing_staged
          | some (some b) ↦ Reply.queued b
        ],
        record s { rows = rows },
      )

  abbrev pub once_prepared : Request → RoomCommand → List (Row J) → Prepare × Shelf → Reply × Site J
  once_prepared q command rows (Prepare.refused r, shelf) =
      (Reply.refused r, record { rows = rows; shelf = shelf })
  once_prepared q command rows (Prepare.ready Prepared.stored, shelf) =
      (Reply.stored, record { rows = rows; shelf = shelf })
  once_prepared q command rows (Prepare.ready Prepared.uncertain, shelf) =
      (Reply.uncertain, record { rows = rows; shelf = shelf })
  once_prepared q command rows (Prepare.ready _, shelf) =
      queue_one q command (record { rows = rows; shelf = shelf })

  unfoldable pub run_inner : Request → RoomCommand → Site J → Reply × Site J
  unfolding required_role prepare_command queue_one
  run_inner q command s =
      if role_le (required_role command) q.role
      then once_prepared q command s.rows (prepare_command q command s.shelf)
      else (Reply.forbidden, s)

  abbrev pub once_all_prepared :
      Request → List RoomCommand → List (Row J) → Loop × Shelf → Reply × Site J
  once_all_prepared q commands rows (Loop.broken r, shelf) =
      (Reply.refused r, record { rows = rows; shelf = shelf })
  once_all_prepared q commands rows (Loop.over true, shelf) =
      (Reply.stored, record { rows = rows; shelf = shelf })
  once_all_prepared q commands rows (Loop.over false, shelf) =
      queue_all q commands (record { rows = rows; shelf = shelf })

  -- `commands.first()` against the tier.
  abbrev pub tier_refuses : RoomRole → List RoomCommand → Bool
  unfolding required_role
  tier_refuses role [] = false
  tier_refuses role (c ∷ commands) = not (role_le (required_role c) role)

  -- The arm of `apply` for the actions that are commands.
  abbrev pub apply_commands : Request → String → Option (List RoomCommand) → Site J → Reply × Site J
  apply_commands q action none s = (Reply.bad_request, s)
  apply_commands q action (some commands) s =
      if tier_refuses q.role commands
      then (Reply.forbidden, s)
      else if not (is_up q.room) && not (str_eq action "rotate_passwords")
      then (Reply.not_running, s)
      else once_all_prepared q commands s.rows (prepare_all q commands false s.shelf)

  unfoldable pub apply_bulk : Request → String → List ℕ → Site J → Reply × Site J
  unfolding commands_for
  apply_bulk q action [] s = (Reply.nothing_staged, s)
  apply_bulk q action (n ∷ slots) s = apply_commands q action (commands_for action (n ∷ slots)) s

  -- The filters of staged slots, once they are stored.
  unfoldable pub push_staged : Request → List ℕ → Site J → Reply × Site J
  unfolding queue_all
  push_staged q slots s =
      if is_up q.room
      then queue_all q (map (λ n. RoomCommand.apply_filters (some n)) slots) s
      else (Reply.stored, s)

  -- `tell_the_room`.
  unfoldable pub tell_the_room : Request → Option ℕ → Site J → Reply × Site J
  unfolding queue_one
  tell_the_room q slot s =
      if is_up q.room then queue_one q (RoomCommand.apply_filters slot) s else (Reply.stored, s)

  -- The two routes that call it: the room's filter is behind the guard for organizers.
  unfoldable pub filter_route : Request → Option ℕ → Site J → Reply × Site J
  unfolding tell_the_room
  filter_route q none s =
      if role_le RoomRole.organizer q.role then tell_the_room q none s else (Reply.forbidden, s)
  filter_route q (some n) s = tell_the_room q (some n) s
