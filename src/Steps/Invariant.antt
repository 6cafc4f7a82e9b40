-- ===== src/Steps/Invariant.antt =====
-- What every row satisfies however the steps of Steps.Execute end, and what it satisfies when a step is
-- planned for it.
use puna.Common.{
  ℕ, Bool, true, false, ◌&&◌, Option, some, ◌≡◌, arith, ℤ, is_some, is_none, leb, ◌==◌,
}
use puna.Model.RoomState.{RoomState, is_live}
use puna.Plan.View.{RoomView, RoomDeployment}
use puna.Plan.Decide.{Step, step_for, is_running_state}
use puna.Steps.Row.{RoomRow, check_directory, request_state, request_redeploy}
use puna.Steps.Row

-- A live room has an address to show, and one that is down and waiting has none; the count of
-- sweeps is one that its state can have; and only a room being created or deleted may be without a
-- directory.
unfoldable pub sane : RoomRow → Bool
sane row = elim row.state [
  | RoomState.provisioning ↦ is_none row.advertised && row.not_ready_sweeps == 0
  | RoomState.idle ↦
      is_none row.advertised && row.not_ready_sweeps == 0 && is_some row.provisioned_at
  | RoomState.failed ↦
      is_none row.advertised && row.not_ready_sweeps == 0 && is_some row.provisioned_at
  | RoomState.starting ↦
      is_some row.advertised && row.not_ready_sweeps == 0 && is_some row.provisioned_at
  | RoomState.running ↦
      is_some row.advertised && leb row.not_ready_sweeps 2 && is_some row.provisioned_at
  | RoomState.degraded ↦
      is_some row.advertised && row.not_ready_sweeps == 3 && is_some row.provisioned_at
  | RoomState.stopping ↦ leb row.not_ready_sweeps 3 && is_some row.provisioned_at
  | RoomState.integrity_fault ↦ leb row.not_ready_sweeps 3 && is_some row.provisioned_at
  | RoomState.deleting ↦ leb row.not_ready_sweeps 3
]

abbrev pub is_startable : RoomState → Bool
is_startable RoomState.idle = true
is_startable RoomState.starting = true
is_startable RoomState.failed = true
is_startable _ = false

-- What a row satisfies when a step is planned for it.
abbrev pub before : Step → RoomRow → Bool
before Step.start row = sane row && is_startable row.state
before Step.fail_start row = sane row && is_startable row.state
before Step.mark_running row = sane row && is_live row.state
before Step.not_ready row = sane row && is_running_state row.state && leb row.not_ready_sweeps 1
before Step.mark_degraded row = sane row && is_running_state row.state && row.not_ready_sweeps == 2
before Step.recreate row = sane row && is_some row.provisioned_at
before (Step.mark_idle reason) row = sane row && is_some row.provisioned_at
before Step.stop row = sane row && is_some row.provisioned_at
before _ row = sane row

pub step_for-before :
    (row : RoomRow) (view : RoomView) (deployment : Option RoomDeployment) (now : ℕ)
    (idle_timeout : ℤ) (step : Step)
    → sane row ≡ true
    → view.state ≡ row.state
    → view.not_ready_sweeps ≡ row.not_ready_sweeps
    → step_for view deployment now idle_timeout ≡ some step
    → before step row ≡ true
unfolding sane step_for
step_for-before row view deployment now idle_timeout next h e n p = ground arith

pub before-sane : (step : Step) (row : RoomRow) → before step row ≡ true → sane row ≡ true
before-sane next row h = ground arith

pub not_ready-sane :
    (now : ℕ) (row written : RoomRow)
    → before Step.not_ready row ≡ true
    → Row.bump_not_ready false now row ≡ some written
    → sane written ≡ true
unfolding sane Row.bump_not_ready
not_ready-sane now row written h e = ground arith

pub degraded-sane :
    (now : ℕ) (row written : RoomRow)
    → before Step.mark_degraded row ≡ true
    → Row.bump_not_ready true now row ≡ some written
    → sane written ≡ true
unfolding sane Row.bump_not_ready
degraded-sane now row written h e = ground arith
