-- ===== src/Plan/Decide/Deadlines.antt =====
-- The clocks and counters of `step_for` of puna-orchestrator/src/plan.rs: grace periods, deadlines
-- and the sweeps before a room is degraded.
use puna.Common.{
  ℕ, ◌+◌, ◌≤◌, ◌<◌, ◌≡◌, ◌↔◌, ◌≢◌, ◌⊎◌, true, false, ◌&&◌, none, some, arith, ℤ, pos, gtb,
  same_text, seconds,
}
use puna.Model.RoomState.{RoomState, is_live}
use puna.Model.DesiredState.{DesiredState}
use puna.Plan.View.{RoomView, RoomDeployment, should_reap}
use puna.Plan.Decide.{Step, IdleReason, step_for, is_running_state}

-- Nothing above the readiness arms applies to a live room: no redeploy was asked for, it is not to
-- be reaped, and its Deployment has the recorded hash.
pub record Settled (room : RoomView) (d : RoomDeployment) (now : ℕ) (idle_timeout : ℤ)
    : Type 0 where
  pub wanted : room.desired ≡ DesiredState.running
  pub no_redeploy : room.redeploy_requested_at ≡ none
  pub not_idle : (is_running_state room.state && should_reap room now idle_timeout) ≡ false
  pub same_spec : same_text d.spec_hash room.spec_hash ≡ true

module _ (room : RoomView) (d : RoomDeployment) (now : ℕ) (idle_timeout : ℤ) where
  -- A settled live room whose Deployment has a ready replica is marked running, unless it is
  -- already running with no sweep counted against it: then nothing is done at all.
  pub step_for-ready :
      is_live room.state ≡ true
      → Settled room d now idle_timeout
      → gtb d.ready_replicas (pos 0) ≡ true
      → ((step_for room (some d) now idle_timeout ≡ some Step.mark_running)
          × ((room.state ≢ RoomState.running) ⊎ (0 < room.not_ready_sweeps)))
        ⊎ ((step_for room (some d) now idle_timeout ≡ none)
            × (room.state ≡ RoomState.running)
            × (room.not_ready_sweeps ≡ 0))
  unfolding step_for
  step_for-ready live settled ready = ground arith

  -- A settled running room with no ready replica is counted as not ready for two sweeps and called
  -- degraded from the third on, as long as the count is an `i32` below the largest.
  pub step_for-not_ready :
      room.state ≡ RoomState.running
      → Settled room d now idle_timeout
      → gtb d.ready_replicas (pos 0) ≡ false
      → room.not_ready_sweeps < 2147483647
      → ((step_for room (some d) now idle_timeout ≡ some Step.not_ready)
          × (room.not_ready_sweeps < 2))
        ⊎ ((step_for room (some d) now idle_timeout ≡ some Step.mark_degraded)
            × (2 ≤ room.not_ready_sweeps))
  unfolding step_for
  step_for-not_ready running settled ready small = ground arith

-- A start is failed exactly when the room is starting and wanted running, no redeploy was asked
-- for, its Deployment has the recorded hash and no ready replica, and it has been starting for more
-- than 300 seconds.
pub step_for-fail_start_iff :
    (room : RoomView) (d : RoomDeployment) (now : ℕ) (idle_timeout : ℤ)
    → (step_for room (some d) now idle_timeout ≡ some Step.fail_start) ↔ (
        (room.state ≡ RoomState.starting)
        × Settled room d now idle_timeout
        × (gtb d.ready_replicas (pos 0) ≡ false)
        × (room.state_changed_at + seconds 300 < now))
unfolding step_for
step_for-fail_start_iff room d now idle_timeout = ground arith

-- A live room that is wanted running and whose Deployment is missing is left alone for 60 seconds
-- after its last transition, and put back to idle after them.
pub step_for-vanished :
    (room : RoomView) (now : ℕ) (idle_timeout : ℤ)
    → is_live room.state ≡ true
    → room.desired ≡ DesiredState.running
    → ((step_for room none now idle_timeout ≡ none) × (now ≤ room.state_changed_at + seconds 60))
      ⊎ ((step_for room none now idle_timeout ≡ some (Step.mark_idle IdleReason.deployment_gone))
          × (room.state_changed_at + seconds 60 < now))
unfolding step_for
step_for-vanished room now idle_timeout live wanted = ground arith

-- A stopping room that nobody deletes waits for its Deployment to go, is idle once it is gone, and
-- asks for the deletion again when more than 90 seconds have passed.
pub step_for-stopping :
    (room : RoomView) (d : RoomDeployment) (now : ℕ) (idle_timeout : ℤ)
    → room.state ≡ RoomState.stopping
    → room.desired ≢ DesiredState.deleted
    → (step_for room none now idle_timeout ≡ some (Step.mark_idle IdleReason.stop_complete))
      × (((step_for room (some d) now idle_timeout ≡ none)
            × (now ≤ room.state_changed_at + seconds 90))
          ⊎ ((step_for room (some d) now idle_timeout ≡ some Step.stop)
              × (room.state_changed_at + seconds 90 < now)))
unfolding step_for
step_for-stopping room d now idle_timeout h k = ground arith
