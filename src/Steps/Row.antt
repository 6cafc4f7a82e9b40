-- ===== src/Steps/Row.antt =====
-- The columns of `rooms` that the planner reads or a step writes, and the updates of
-- puna-orchestrator/src/steps.rs, one function for each statement. `now` is the database's `now()`.
use puna.Common.{ℕ, ◌+◌, Bool, Option, none, some, String, if◌then◌else◌, str_eq, ltb, ℤ}
use puna.Model.RoomState.{RoomState}
use puna.Model.DesiredState.{DesiredState, as_sql}

pub record Advertised : Type 0 where
  pub host : String
  pub port : ℕ
  pub filtered_port : Option ℕ

pub record RoomRow : Type 0 where
  pub id : ℕ
  pub lock_key : ℤ
  pub state : RoomState
  pub desired_state : DesiredState
  pub desired_at : ℕ
  pub state_changed_at : ℕ
  pub provisioned_at : Option ℕ
  pub deployment_uid : Option String
  pub spec_hash : Option String
  pub desired_spec_hash : Option String
  pub advertised : Option Advertised
  pub not_ready_sweeps : ℕ
  pub failure_count : ℕ
  pub retry_after : Option ℕ
  pub last_error : Option String
  pub started_at : Option ℕ
  pub stopped_at : Option ℕ
  pub redeploy_requested_at : Option ℕ
  pub running_image : Option String
  pub deployment_created_at : Option ℕ
  pub process_started_at : Option ℕ
  pub pinned_at : Option ℕ
  pub probed_at : Option ℕ
  pub probe_kind : Option String
  pub last_check_at : Option ℕ

-- `column + 1` on an INTEGER: the largest value has no successor, and the statement fails.
abbrev pub int_succ : ℕ → Option ℕ
int_succ n = if ltb (n + 1) 2147483648 then some (n + 1) else none

-- `COALESCE(column, now())`.
abbrev pub or_now : Option ℕ → ℕ → Option ℕ
or_now none now = some now
or_now (some t) now = some t

-- The update of `provision`, which fires only from `provisioning`.
unfoldable pub provisioned : ℕ → RoomRow → RoomRow
provisioned now row = elim row.state [
  | RoomState.provisioning ↦ record row {
    provisioned_at = or_now row.provisioned_at now;
    state = RoomState.idle;
    state_changed_at = now;
  }
  | _ ↦ row
]

-- `RowRecorder::record`.
unfoldable pub record_deployment : String → String → RoomRow → RoomRow
record_deployment uid hash row = record row {
  deployment_uid = some uid;
  spec_hash = some hash;
  desired_spec_hash = none;
}

unfoldable pub clear_deployment : ℕ → RoomRow → RoomRow
clear_deployment now row = record row {
  state = RoomState.idle;
  state_changed_at = now;
  deployment_uid = none;
  spec_hash = none;
  advertised = none;
  not_ready_sweeps = 0;
  started_at = none;
  stopped_at = some now;
  running_image = none;
  deployment_created_at = none;
  process_started_at = none;
  last_error = none;
}

unfoldable pub clear_redeploy_request : RoomRow → RoomRow
clear_redeploy_request row = record row { redeploy_requested_at = none }

-- The update of `start` once its objects have converged.
unfoldable pub starting : ℕ → Advertised → RoomRow → RoomRow
starting now a row = record row {
  state = RoomState.starting;
  state_changed_at = now;
  advertised = some a;
  last_error = none;
}

unfoldable pub mark_running : ℕ → RoomRow → RoomRow
mark_running now row = record row {
  state = RoomState.running;
  state_changed_at = now;
  started_at = or_now row.started_at now;
  not_ready_sweeps = 0;
  failure_count = 0;
  retry_after = none;
  last_error = none;
}

-- `bump_not_ready`: a count, and on the degrading sweep the state as well.
unfoldable pub bump_not_ready : Bool → ℕ → RoomRow → Option RoomRow
bump_not_ready degraded now row = elim (int_succ row.not_ready_sweeps) [
  | none ↦ none
  | some n ↦ some (
      if degraded
      then record row { state = RoomState.degraded; state_changed_at = now; not_ready_sweeps = n }
      else record row { not_ready_sweeps = n })
]

unfoldable pub stopping : ℕ → RoomRow → RoomRow
stopping now row = record row { state = RoomState.stopping; state_changed_at = now }

-- The update of `retry`, which fires only from `failed`.
unfoldable pub retrying : ℕ → RoomRow → RoomRow
retrying now row = elim row.state [
  | RoomState.failed ↦ record row {
    state = RoomState.idle;
    state_changed_at = now;
    retry_after = none;
  }
  | _ ↦ row
]

-- The update of `reap`, which fires only while the row still says `running`.
unfoldable pub reaped : ℕ → RoomRow → RoomRow
reaped now row = elim row.desired_state [
  | DesiredState.running ↦ record row { desired_state = DesiredState.stopped; desired_at = now }
  | _ ↦ row
]

-- The update of `delete` while the Deployment is still there.
unfoldable pub deleting : ℕ → RoomRow → RoomRow
deleting now row = elim row.state [
  | RoomState.deleting ↦ row
  | _ ↦ record row { state = RoomState.deleting; state_changed_at = now }
]

-- The first update of `fail_with`, which counts the failure.
unfoldable pub failed : ℕ → String → RoomRow → Option RoomRow
failed now error row = elim (int_succ row.failure_count) [
  | none ↦ none
  | some n ↦ some (record row {
    state = RoomState.failed;
    state_changed_at = now;
    failure_count = n;
    last_error = some error;
    advertised = none;
  })
]

-- The second update of `fail_with`.
unfoldable pub backing_off : ℕ → RoomRow → RoomRow
backing_off retry_after row = record row { retry_after = some retry_after }

-- `detect_integrity_faults` of reconcile.rs: a provisioned room whose directory is missing, unless it
-- is being deleted or known to be faulty.
unfoldable pub check_directory : Bool → ℕ → RoomRow → RoomRow
check_directory exists now row = if exists then row else elim row.provisioned_at [
  | none ↦ row
  | some t ↦ elim row.state [
    | RoomState.deleting ↦ row
    | RoomState.integrity_fault ↦ row
    | _ ↦ elim row.desired_state [
      | DesiredState.deleted ↦ row
      | _ ↦ record row { state = RoomState.integrity_fault; state_changed_at = now }
    ]
  ]
]

-- What the web tier writes: `request_state` of puna-core/src/model/room.rs and `request_redeploy` of
-- puna-core/src/model/fleet.rs.
unfoldable pub request_state : DesiredState → ℕ → RoomRow → RoomRow
request_state desired now row =
    if str_eq (as_sql row.desired_state) (as_sql desired)
    then row
    else record row { desired_state = desired; desired_at = now }

unfoldable pub request_redeploy : ℕ → RoomRow → RoomRow
request_redeploy now row = record row {
  redeploy_requested_at = or_now row.redeploy_requested_at now;
}
