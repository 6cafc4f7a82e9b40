-- ===== src/Plan/Decide/Priority.antt =====
-- Which requests outrank which in `step_for` of puna-orchestrator/src/plan.rs.
use puna.Common.{ℕ, ◌≤◌, ◌≡◌, ◌↔◌, ◌≢◌, ◌⊎◌, true, false, Option, some, String, arith, ℤ}
use puna.Model.RoomState.{RoomState, is_live}
use puna.Model.DesiredState.{DesiredState, is_at_rest}
use puna.Plan.View.{RoomView, RoomDeployment}
use puna.Plan.Decide.{Step, IdleReason, step_for, spec_changed, is_draining}

module _ (room : RoomView) (deployment : Option RoomDeployment) (now : ℕ) (idle_timeout : ℤ) where
  -- A room is deleted exactly when somebody asked for it, whatever its state.
  pub step_for-delete_iff :
      (step_for room deployment now idle_timeout ≡ some Step.delete)
      ↔ (room.desired ≡ DesiredState.deleted)
  unfolding step_for
  step_for-delete_iff = ground arith

  -- A room whose directory is missing is never repaired: its only step is the requested deletion.
  pub step_for-integrity_fault :
      {s : Step}
      → room.state ≡ RoomState.integrity_fault
      → step_for room deployment now idle_timeout ≡ some s
      → (s ≡ Step.delete) × (room.desired ≡ DesiredState.deleted)
  unfolding step_for
  step_for-integrity_fault h e = ground arith

  -- A room is started exactly when it is idle, wanted running, and no Deployment of it is still
  -- being deleted.
  pub step_for-start_iff : (step_for room deployment now idle_timeout ≡ some Step.start) ↔ (
      (room.state ≡ RoomState.idle)
      × (room.desired ≡ DesiredState.running)
      × (is_draining deployment ≡ false))
  unfolding step_for
  step_for-start_iff = ground arith

  -- A failed room is put back to idle for another attempt exactly when it is wanted running and
  -- either both spec hashes are known and differ, or a retry time is recorded and has come. A
  -- failure that recorded no retry time waits for a changed spec.
  pub step_for-retry_iff : (step_for room deployment now idle_timeout ≡ some Step.retry) ↔ (
      (room.state ≡ RoomState.failed)
      × (room.desired ≡ DesiredState.running)
      × ((spec_changed room.desired_spec_hash room.spec_hash ≡ true)
          ⊎ ((after : ℕ) × (room.retry_after ≡ some after) × (after ≤ now))))
  unfolding step_for
  step_for-retry_iff = ground arith

  -- A room that is not wanted running is never brought up, kept up or counted: what is planned for
  -- it takes it down, provisions its directory or records that it is down.
  pub step_for-at_rest :
      {s : Step}
      → is_at_rest room.desired ≡ true
      → step_for room deployment now idle_timeout ≡ some s
      → (s ≡ Step.stop) ⊎ (s ≡ Step.provision) ⊎ (s ≡ Step.mark_idle IdleReason.stop_complete)
  unfolding step_for
  step_for-at_rest h e = ground arith

  -- A live room that is to be at rest is stopped, whether or not its Deployment is there.
  pub step_for-live_at_rest :
      is_live room.state ≡ true
      → is_at_rest room.desired ≡ true
      → step_for room deployment now idle_timeout ≡ some Step.stop
  unfolding step_for
  step_for-live_at_rest h e = ground arith

-- The planner treats a closed room as a stopped one.
pub step_for-closed :
    (room : RoomView) (deployment : Option RoomDeployment) (now : ℕ) (idle_timeout : ℤ)
    → step_for (record room { desired = DesiredState.closed }) deployment now idle_timeout
      ≡ step_for (record room { desired = DesiredState.stopped }) deployment now idle_timeout
unfolding step_for
step_for-closed room deployment now idle_timeout = ground arith

-- A drift of the rendered spec never moves a room that is not failed: the hash that the room would
-- render to now does not enter the decision.
pub step_for-drift :
    (room : RoomView) (deployment : Option RoomDeployment) (now : ℕ) (idle_timeout : ℤ)
    (hash : Option String)
    → room.state ≢ RoomState.failed
    → step_for (record room { desired_spec_hash = hash }) deployment now idle_timeout
      ≡ step_for room deployment now idle_timeout
unfolding step_for
step_for-drift room deployment now idle_timeout hash h = ground arith
