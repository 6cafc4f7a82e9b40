-- ===== src/Commands/Queue.antt =====
-- The queue of commands: the table `room_commands` and its statements in puna-core/src/model/command.rs.
-- The JSON of a command, its writing and its reading are another crate's, and arguments; so are the clock,
-- the new ids, and which rows another transaction holds locked. Notifications only wake, and are left out.
-- A result is read back as it was written.
use puna.Common.{
  ℕ, suc, ◌+◌, Bool, true, false, not, Option, none, some, List, [], ◌∷◌, ◌++◌, map, if◌then◌else◌,
  ◌&&◌, ◌==◌, ltb, keep, length,
}
use mathlib.Core.Option
use puna.Roster.Role.{RoomRole}
use puna.Commands.Kind.{RoomCommand, CommandState, Why}
use puna.Commands.Probe.{CommandOutput}

-- A row whose column `command` holds a C: JSON in the table, a command once it is read.
pub record Row (C : Type 0) : Type 0 where
  pub id : ℕ
  pub room_id : ℕ
  pub requested_by : ℕ
  pub requested_role : RoomRole
  pub command : C
  pub batch_id : Option ℕ
  pub state : CommandState
  pub result : Option CommandOutput
  pub error : Option Why
  pub requested_at : ℕ
  pub started_at : Option ℕ
  pub finished_at : Option ℕ

abbrev pub is_pending : {C : Type 0} → Row C → Bool
is_pending r = elim r.state [ CommandState.pending ↦ true | _ ↦ false ]

abbrev pub is_running : {C : Type 0} → Row C → Bool
is_running r = elim r.state [ CommandState.running ↦ true | _ ↦ false ]

unfoldable pub is_finished : {C : Type 0} → Row C → Bool
is_finished r = elim r.state [
  | CommandState.ok ↦ true
  | CommandState.failed ↦ true
  | CommandState.rejected ↦ true
  | _ ↦ false
]

abbrev pub new_row : {C : Type 0} → ℕ → ℕ → ℕ → ℕ → RoomRole → C → Option ℕ → Row C
new_row id now room by role command batch = record {
  id = id;
  room_id = room;
  requested_by = by;
  requested_role = role;
  command = command;
  batch_id = batch;
  state = CommandState.pending;
  result = none;
  error = none;
  requested_at = now;
  started_at = none;
  finished_at = none;
}

abbrev pub update_where :
    {C : Type 0} → (Row C → Bool) → (Row C → Row C) → List (Row C) → List (Row C)
update_where test change = map (λ r. if test r then change r else r)

abbrev pub has_id : {C : Type 0} → ℕ → Row C → Bool
has_id id r = r.id == id

-- The subquery of `claim`: the oldest row that is pending and that nobody holds locked; of rows equally
-- old the first that the table lists.
abbrev pub is_free : {C : Type 0} → (ℕ → Bool) → Row C → Bool
is_free locked r = is_pending r && not (locked r.id)

abbrev pub older : {C : Type 0} → Row C → Option (Row C) → Row C
older r none = r
older r (some best) = if ltb best.requested_at r.requested_at then best else r

unfoldable pub oldest_free : {C : Type 0} → (ℕ → Bool) → List (Row C) → Option (Row C)
oldest_free locked [] = none
oldest_free locked (r ∷ rows) =
    let rest = oldest_free locked rows in if is_free locked r then some (older r rest) else rest

abbrev pub started : {C : Type 0} → ℕ → Row C → Row C
started now r = record r { state = CommandState.running; started_at = some now }

abbrev pub ended :
    {C : Type 0} → ℕ → CommandState → Option CommandOutput → Option Why → Row C → Row C
ended now state result error r = record r {
  state = state;
  result = result;
  error = error;
  finished_at = some now;
}

abbrev pub with_command : {C D : Type 0} → Row C → D → Row D
with_command raw command = record {
  id = raw.id;
  room_id = raw.room_id;
  requested_by = raw.requested_by;
  requested_role = raw.requested_role;
  command = command;
  batch_id = raw.batch_id;
  state = raw.state;
  result = raw.result;
  error = raw.error;
  requested_at = raw.requested_at;
  started_at = raw.started_at;
  finished_at = raw.finished_at;
}

module _ {J : Type 0} (decode : J → Option RoomCommand) where
  unfoldable pub hydrate : Row J → Option (Row RoomCommand)
  hydrate raw = Option.map (with_command raw) (decode raw.command)

  -- `claim`: the row that it claims, if it can be read; the claim stands in either case.
  unfoldable pub claim : ℕ → (ℕ → Bool) → List (Row J) → Option (Row RoomCommand) × List (Row J)
  unfolding hydrate oldest_free
  claim now locked rows = elim (oldest_free locked rows) [
    | none ↦ (none, rows)
    | some r ↦ (hydrate (started now r), update_where (has_id r.id) (started now) rows)
  ]

module _ {J : Type 0} (encode : RoomCommand → Option J) where
  -- `none` is an error, that of the writing or, if `down`, of the database.
  unfoldable pub enqueue :
      Bool → ℕ → ℕ → ℕ → ℕ → RoomRole → RoomCommand → List (Row J) → Option ℕ × List (Row J)
  enqueue true id now room by role command rows = (none, rows)
  enqueue false id now room by role command rows = elim (encode command) [
    | none ↦ (none, rows)
    | some body ↦ (some id, new_row id now room by role body none ∷ rows)
  ]

  -- `collect::<Result<Vec<_>, _>>` of the bodies.
  unfoldable pub encoded : List RoomCommand → Option (List J)
  encoded [] = some []
  encoded (c ∷ commands) =
      let rest = encoded commands in
      elim (encode c) [ none ↦ none | some body ↦ Option.map (λ bodies. body ∷ bodies) rest ]

  -- The rows of one transaction have its one time.
  abbrev pub batch_rows : (ℕ → ℕ) → ℕ → ℕ → ℕ → RoomRole → ℕ → ℕ → List J → List (Row J)
  batch_rows ids now room by role batch i [] = []
  batch_rows ids now room by role batch i (body ∷ bodies) =
      new_row (ids i) now room by role body (some batch)
      ∷ batch_rows ids now room by role batch (suc i) bodies

  -- `none` is an error, `some none` an empty batch.
  unfoldable pub enqueue_batch :
      Bool
      → ℕ
      → (ℕ → ℕ)
      → ℕ
      → ℕ
      → ℕ
      → RoomRole
      → List RoomCommand
      → List (Row J)
      → Option (Option ℕ) × List (Row J)
  unfolding encoded
  enqueue_batch down batch ids now room by role [] rows = (some none, rows)
  enqueue_batch true batch ids now room by role (c ∷ commands) rows = (none, rows)
  enqueue_batch false batch ids now room by role (c ∷ commands) rows =
      elim (encoded (c ∷ commands)) [
        | none ↦ (none, rows)
        | some bodies ↦ (some (some batch), batch_rows ids now room by role batch 0 bodies ++ rows)
      ]

module _ {J : Type 0} where
  unfoldable pub finish :
      ℕ → ℕ → CommandState → Option CommandOutput → Option Why → List (Row J) → List (Row J)
  finish now id state result error = update_where (has_id id) (ended now state result error)

  abbrev pub is_stale : ℕ → ℕ → Row J → Bool
  is_stale now older_than r =
      is_running r && elim r.started_at [ none ↦ false | some t ↦ ltb (t + older_than) now ]

  abbrev pub fail_one : ℕ → Row J → Row J
  fail_one now r = record r {
    state = CommandState.failed;
    error = some Why.restarted;
    finished_at = some now;
  }

  unfoldable pub fail_stale : ℕ → ℕ → List (Row J) → ℕ × List (Row J)
  fail_stale now older_than rows = (
    length (keep (is_stale now older_than) rows),
    update_where (is_stale now older_than) (fail_one now) rows,
  )

-- How a batch went.
pub record BatchOutcome : Type 0 where
  pub succeeded : ℕ
  pub refused : ℕ
  pub failed : ℕ
  pub outstanding : ℕ

unfoldable pub outcome_of : List (Row RoomCommand) → BatchOutcome
outcome_of [] = record { succeeded = 0; refused = 0; failed = 0; outstanding = 0 }
outcome_of (r ∷ rows) =
    let out = outcome_of rows in
    elim r.state [
      | CommandState.ok ↦ elim r.result [
        | none ↦ record out { refused = suc out.refused }
        | some output ↦
            if output.did
            then record out { succeeded = suc out.succeeded }
            else record out { refused = suc out.refused }
      ]
      | CommandState.failed ↦ record out { failed = suc out.failed }
      | CommandState.rejected ↦ record out { failed = suc out.failed }
      | _ ↦ record out { outstanding = suc out.outstanding }
    ]

unfoldable pub total : BatchOutcome → ℕ
total b = b.succeeded + b.refused + b.failed + b.outstanding

unfoldable pub batch_finished : BatchOutcome → Bool
batch_finished b = b.outstanding == 0
