-- ===== src/Steps/Writes/Moves.antt =====
-- The room's life as a machine of its own, and the steps of puna-orchestrator/src/steps.rs as moves of
-- it: what a step may make of the state that it was planned in and of what somebody asked for.
use puna.Common.{ℕ, Bool, true, false, ◌&&◌, ◌||◌, Option, some, ◌≡◌, subst, arith, ℤ, refl}
use puna.Model.RoomState.{RoomState, is_live}
use puna.Model.DesiredState.{DesiredState}
use puna.Plan.View.{RoomView, RoomDeployment}
use puna.Plan.Decide.{Step, step_for}
use puna.Steps.Row.{RoomRow}
use puna.Steps.Row
use puna.Steps.Execute.{World, Session, execute}
use puna.Steps.Keeps.{kept_by, on_row}
use puna.Steps.Life.{some-row}
use puna.Steps.Writes.{Writes, Stable, execute-Stable}

-- The moves of the state: the step's, where it starts from and where it leads.
abbrev pub moves : Step → RoomState → RoomState → Bool
moves Step.provision RoomState.provisioning RoomState.idle = true
moves Step.start RoomState.idle RoomState.starting = true
moves Step.start RoomState.idle RoomState.failed = true
moves Step.fail_start RoomState.starting RoomState.failed = true
moves Step.mark_running RoomState.starting RoomState.running = true
moves Step.mark_running RoomState.degraded RoomState.running = true
moves Step.mark_degraded RoomState.running RoomState.degraded = true
moves Step.recreate s RoomState.idle = is_live s
moves (Step.mark_idle reason) RoomState.stopping RoomState.idle = true
moves (Step.mark_idle reason) s RoomState.idle = is_live s
moves Step.stop s RoomState.stopping = is_live s
moves Step.retry RoomState.failed RoomState.idle = true
moves Step.delete s RoomState.deleting = true
moves _ s t = false

abbrev pub same_state : RoomState → RoomState → Bool
same_state RoomState.provisioning RoomState.provisioning = true
same_state RoomState.idle RoomState.idle = true
same_state RoomState.starting RoomState.starting = true
same_state RoomState.running RoomState.running = true
same_state RoomState.degraded RoomState.degraded = true
same_state RoomState.stopping RoomState.stopping = true
same_state RoomState.failed RoomState.failed = true
same_state RoomState.deleting RoomState.deleting = true
same_state RoomState.integrity_fault RoomState.integrity_fault = true
same_state _ _ = false

abbrev pub same_desired : DesiredState → DesiredState → Bool
same_desired DesiredState.running DesiredState.running = true
same_desired DesiredState.stopped DesiredState.stopped = true
same_desired DesiredState.closed DesiredState.closed = true
same_desired DesiredState.deleted DesiredState.deleted = true
same_desired _ _ = false

-- The one step that changes what was asked for.
abbrev pub asks : Step → DesiredState → DesiredState → Bool
asks Step.reap DesiredState.running DesiredState.stopped = true
asks _ d e = false

-- The row after a step: in the state that it was in or one move on, and asked for what it was.
abbrev pub follows : Step → RoomState → DesiredState → RoomRow → Bool
follows next s d row =
    (same_state s row.state || moves next s row.state)
    && (same_desired d row.desired_state || asks next d row.desired_state)

-- The states that a step is planned in.
abbrev planned_in : Step → RoomState → Bool
planned_in Step.provision s = same_state s RoomState.provisioning
planned_in Step.start s = same_state s RoomState.idle
planned_in Step.fail_start s = same_state s RoomState.starting
planned_in Step.mark_running s = is_live s
planned_in Step.not_ready s = same_state s RoomState.running
planned_in Step.mark_degraded s = same_state s RoomState.running
planned_in Step.recreate s = is_live s
planned_in (Step.mark_idle reason) s = is_live s || same_state s RoomState.stopping
planned_in Step.stop s = is_live s || same_state s RoomState.stopping
planned_in Step.retry s = same_state s RoomState.failed
planned_in Step.reap s = same_state s RoomState.running
planned_in Step.delete s = true

step_for-planned_in :
    (view : RoomView) (deployment : Option RoomDeployment) (now : ℕ) (idle_timeout : ℤ)
    (next : Step)
    → step_for view deployment now idle_timeout ≡ some next
    → planned_in next view.state ≡ true
unfolding step_for
step_for-planned_in view deployment now idle_timeout next h = ground arith

module _ (s : RoomState) (d : DesiredState) where
  follows-Stable : (next : Step) → planned_in next s ≡ true → Stable next (follows next s d)
  unfolding Row.provisioned Row.record_deployment Row.starting Row.clear_redeploy_request
      Row.clear_deployment Row.failed Row.backing_off Row.mark_running Row.bump_not_ready
      Row.stopping Row.retrying Row.reaped Row.deleting
  follows-Stable _ h r r' (Writes.provisioned now e) k = ground arith
  follows-Stable _ h r r' (Writes.recorded uid hash e) k = ground arith
  follows-Stable _ h r r' (Writes.started now a e) k = ground arith
  follows-Stable _ h r r' (Writes.answered e) k = ground arith
  follows-Stable _ h r r' (Writes.abandoned now e) k = ground arith
  follows-Stable _ h r r' (Writes.failed now x e) k = ground arith
  follows-Stable _ h r r' (Writes.backing_off at e) k = ground arith
  follows-Stable _ h r r' (Writes.given_up now x e) k = ground arith
  follows-Stable _ h r r' (Writes.delayed at e) k = ground arith
  follows-Stable _ h r r' (Writes.recreated now e) k = ground arith
  follows-Stable _ h r r' (Writes.satisfied e) k = ground arith
  follows-Stable _ h r r' (Writes.running now e) k = ground arith
  follows-Stable _ h r r' (Writes.counted now e) k = ground arith
  follows-Stable _ h r r' (Writes.degraded now e) k = ground arith
  follows-Stable _ h r r' (Writes.idle now reason e) k = ground arith
  follows-Stable _ h r r' (Writes.stopping now e) k = ground arith
  follows-Stable _ h r r' (Writes.retried now e) k = ground arith
  follows-Stable _ h r r' (Writes.reaped now e) k = ground arith
  follows-Stable _ h r r' (Writes.deleting now e) k = ground arith

  follows_refl :
      (next : Step) (row : RoomRow)
      → s ≡ row.state
      → d ≡ row.desired_state
      → follows next s d row ≡ true
  follows_refl next row e f = ground arith

-- However a step ends, and whatever of it fails, the row it was planned for is gone or has made at
-- most one move of the machine: its state is what it was or where the step leads from there, and what
-- was asked for is what it was, save that a reaped room that was to run is to stop.
pub execute-follows :
    (w : World) (view : RoomView) (row : RoomRow) (deployment : Option RoomDeployment) (now : ℕ)
    (idle_timeout : ℤ) (next : Step) (s : Session)
    → view.state ≡ row.state
    → step_for view deployment now idle_timeout ≡ some next
    → s.row ≡ some row
    → on_row (follows next row.state row.desired_state) (execute w next row.id s).1.row ≡ true
execute-follows w view row deployment now idle_timeout next s e p at =
    let planned =
      subst (λ x. planned_in next x ≡ true) e
        (step_for-planned_in view deployment now idle_timeout next p) in
    kept_by
      (execute-Stable w (follows next row.state row.desired_state) next row.id
        (follows-Stable row.state row.desired_state next planned))
      s
      (some-row (follows next row.state row.desired_state) s.row row at
        (follows_refl row.state row.desired_state next row refl refl))
