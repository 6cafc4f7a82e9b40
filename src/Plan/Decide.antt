-- ===== src/Plan/Decide.antt =====
-- The transition table: `Step`, `IdleReason` and `step_for` of puna-orchestrator/src/plan.rs.
pub mod Priority
pub mod Reaping
pub mod Deadlines
use puna.Common.{
  ℕ, ◌+◌, ◌*◌, Bool, true, false, ◌&&◌, not, Option, none, some, String, if◌then◌else◌, same_text,
  is_some, leb, ltb, ◌==◌, ℤ, pos, longer_than, gtb, seconds,
}
use puna.Model.RoomState.{RoomState}
use puna.Model.DesiredState.{DesiredState, is_at_rest, is_deleted}
use puna.Plan.View.{RoomView, RoomDeployment, should_reap}

pub data IdleReason : Type 0 where
  deployment_gone stop_complete : IdleReason

pub data Step : Type 0 where
  provision start recreate mark_running not_ready mark_degraded stop retry delete fail_start reap :
      Step
  mark_idle : IdleReason → Step

abbrev pub start_deadline : ℕ
start_deadline = seconds 300

abbrev pub stop_deadline : ℕ
stop_deadline = seconds 90

abbrev pub vanish_grace : ℕ
vanish_grace = seconds 60

abbrev pub degraded_sweeps : ℕ
degraded_sweeps = 3

-- `bool::then_some`.
abbrev pub then_some : Bool → Step → Option Step
then_some b step = if b then some step else none

-- `room.not_ready_sweeps + 1 >= DEGRADED_SWEEPS` on `i32`: the sum of the largest `i32` and 1
-- wraps to a negative number.
abbrev pub sweeps_exhausted : ℕ → Bool
sweeps_exhausted sweeps = ltb (sweeps + 1) 2147483648 && leb degraded_sweeps (sweeps + 1)

-- `deployment.is_some_and(|d| d.deleting)`.
abbrev pub is_draining : Option RoomDeployment → Bool
is_draining none = false
is_draining (some d) = d.deleting

-- The arm of `idle`. The case of a deleted room stands behind `unreachable!`: `step_for` returns
-- before it, so its value is never used.
unfoldable pub step_for_idle : DesiredState → Option RoomDeployment → Option Step
step_for_idle DesiredState.running deployment =
    if is_draining deployment then none else some Step.start
step_for_idle DesiredState.stopped deployment = none
step_for_idle DesiredState.closed deployment = none
step_for_idle DesiredState.deleted deployment = none

-- Both hashes are known and they differ.
abbrev pub spec_changed : Option String → Option String → Bool
spec_changed (some want) (some have) = not (same_text (some want) (some have))
spec_changed none have = false
spec_changed (some want) none = false

abbrev pub retry_due : Option ℕ → ℕ → Option Step
retry_due none now = none
retry_due (some after) now = if leb after now then some Step.retry else none

-- The arm of `failed`; its deleted case is unreachable as well.
unfoldable pub step_for_failed : DesiredState → RoomView → ℕ → Option Step
step_for_failed DesiredState.running room now =
    if spec_changed room.desired_spec_hash room.spec_hash
    then some Step.retry
    else retry_due room.retry_after now
step_for_failed DesiredState.stopped room now = none
step_for_failed DesiredState.closed room now = none
step_for_failed DesiredState.deleted room now = none

unfoldable pub step_for_stopping : RoomView → Option RoomDeployment → ℕ → Option Step
step_for_stopping room none now = some (Step.mark_idle IdleReason.stop_complete)
step_for_stopping room (some d) now =
    if longer_than now room.state_changed_at (pos stop_deadline) then some Step.stop else none

abbrev pub is_running_state : RoomState → Bool
is_running_state RoomState.running = true
is_running_state _ = false

abbrev pub is_starting_state : RoomState → Bool
is_starting_state RoomState.starting = true
is_starting_state _ = false

-- A live room with a Deployment, from the redeploy arm down.
unfoldable pub step_for_deployed : RoomView → RoomDeployment → ℕ → ℤ → Option Step
unfolding should_reap
step_for_deployed room cluster now idle_timeout =
    if is_some room.redeploy_requested_at
    then some Step.recreate
    else if is_running_state room.state && should_reap room now idle_timeout
    then some Step.reap
    else if not (same_text cluster.spec_hash room.spec_hash)
    then some Step.recreate
    else if gtb cluster.ready_replicas (pos 0)
    then then_some (not (is_running_state room.state && room.not_ready_sweeps == 0))
        Step.mark_running
    else if is_starting_state room.state
    then then_some (longer_than now room.state_changed_at (pos start_deadline)) Step.fail_start
    else if is_running_state room.state
    then (if sweeps_exhausted room.not_ready_sweeps
        then some Step.mark_degraded
        else some Step.not_ready)
    else none

-- The arm of `starting`, `running` and `degraded`.
unfoldable pub step_for_live : RoomView → Option RoomDeployment → ℕ → ℤ → Option Step
unfolding step_for_deployed
step_for_live room deployment now idle_timeout =
    if is_at_rest room.desired then some Step.stop else elim deployment [
      | none ↦
          then_some (longer_than now room.state_changed_at (pos vanish_grace))
            (Step.mark_idle IdleReason.deployment_gone)
      | some cluster ↦ step_for_deployed room cluster now idle_timeout
    ]

-- `match room.state`.
unfoldable pub step_by_state : RoomState → RoomView → Option RoomDeployment → ℕ → ℤ → Option Step
unfolding step_for_idle step_for_failed step_for_stopping step_for_live
step_by_state RoomState.provisioning room deployment now idle_timeout = some Step.provision
step_by_state RoomState.integrity_fault room deployment now idle_timeout = none
step_by_state RoomState.deleting room deployment now idle_timeout = none
step_by_state RoomState.idle room deployment now idle_timeout =
    step_for_idle room.desired deployment
step_by_state RoomState.failed room deployment now idle_timeout =
    step_for_failed room.desired room now
step_by_state RoomState.stopping room deployment now idle_timeout =
    step_for_stopping room deployment now
step_by_state RoomState.starting room deployment now idle_timeout =
    step_for_live room deployment now idle_timeout
step_by_state RoomState.running room deployment now idle_timeout =
    step_for_live room deployment now idle_timeout
step_by_state RoomState.degraded room deployment now idle_timeout =
    step_for_live room deployment now idle_timeout

unfoldable pub step_for : RoomView → Option RoomDeployment → ℕ → ℤ → Option Step
unfolding step_by_state
step_for room deployment now idle_timeout =
    if is_deleted room.desired
    then some Step.delete
    else step_by_state room.state room deployment now idle_timeout
