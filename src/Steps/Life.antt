-- ===== src/Steps/Life.antt =====
-- The life of a row: every way in which puna-orchestrator/src/steps.rs and reconcile.rs, and the web
-- tier's requests, change it, as a relation. The view that a step was planned from agrees with the
-- row on its state and its count of sweeps, which only the orchestrator writes; all else in the view
-- may be out of date, as a request can come between the plan and the step.
use puna.Common.{
  ℕ, Bool, true, false, Option, none, some, ◌≡◌, arith, subst, ℤ, is_some, is_none, ltb, ◌&&◌, ◌≤◌,
}
use puna.Model.RoomState.{RoomState, is_live}
use puna.Model.DesiredState.{DesiredState}
use puna.Plan.View.{RoomView, RoomDeployment}
use puna.Plan.Decide.{Step, step_for, is_running_state}
use puna.Steps.Row.{RoomRow, check_directory, request_state, request_redeploy}
use puna.Steps.Execute.{World, Session, execute}
use puna.Steps.Keeps.{kept_by, on_row}
use puna.Steps.Invariant.{sane, before, step_for-before}
use puna.Steps.Handlers.{execute-Keeps}

pub data Reachable : RoomRow → Type 0 where
  created :
      (row : RoomRow)
      → row.state ≡ RoomState.provisioning
      → row.advertised ≡ none
      → row.not_ready_sweeps ≡ 0
      → Reachable row
  stepped :
      (row after : RoomRow) (view : RoomView) (deployment : Option RoomDeployment) (now : ℕ)
      (idle_timeout : ℤ) (next : Step) (w : World) (s : Session)
      → Reachable row
      → view.state ≡ row.state
      → view.not_ready_sweeps ≡ row.not_ready_sweeps
      → step_for view deployment now idle_timeout ≡ some next
      → s.row ≡ some row
      → (execute w next row.id s).1.row ≡ some after
      → Reachable after
  checked :
      (row : RoomRow) (exists : Bool) (now : ℕ)
      → Reachable row
      → Reachable (check_directory exists now row)
  requested :
      (row : RoomRow) (desired : DesiredState) (now : ℕ)
      → Reachable row
      → Reachable (request_state desired now row)
  redeployed : (row : RoomRow) (now : ℕ) → Reachable row → Reachable (request_redeploy now row)

created-sane :
    (row : RoomRow)
    → row.state ≡ RoomState.provisioning
    → row.advertised ≡ none
    → row.not_ready_sweeps ≡ 0
    → sane row ≡ true
unfolding sane
created-sane row a b c = ground arith

checked-sane :
    (exists : Bool) (now : ℕ) (row : RoomRow)
    → sane row ≡ true
    → sane (check_directory exists now row) ≡ true
unfolding sane check_directory
checked-sane exists now row h = ground arith

requested-sane :
    (desired : DesiredState) (now : ℕ) (row : RoomRow)
    → sane row ≡ true
    → sane (request_state desired now row) ≡ true
unfolding sane request_state
requested-sane desired now row h = ground arith

redeployed-sane :
    (now : ℕ) (row : RoomRow) → sane row ≡ true → sane (request_redeploy now row) ≡ true
unfolding sane request_redeploy
redeployed-sane now row h = ground arith

pub some-row :
    (p : RoomRow → Bool) (o : Option RoomRow) (row : RoomRow)
    → o ≡ some row
    → p row ≡ true
    → on_row p o ≡ true
some-row p o row e h = rw (e) h

row-some :
    (p : RoomRow → Bool) (o : Option RoomRow) (row : RoomRow)
    → o ≡ some row
    → on_row p o ≡ true
    → p row ≡ true
row-some p o row e h = subst (λ x. on_row p x ≡ true) e h

Reachable-sane : (row : RoomRow) → Reachable row → sane row ≡ true
Reachable-sane row (created _ a b c) = created-sane row a b c
Reachable-sane row (stepped old _ view deployment now idle_timeout next w s r e n p at after) =
    row-some sane _ row after (
      kept_by (execute-Keeps w next old.id) s (
        some-row (before next) s.row old at
          (step_for-before old view deployment now idle_timeout next (Reachable-sane old r) e n p)))
Reachable-sane _ (checked old exists now r) = checked-sane exists now old (Reachable-sane old r)
Reachable-sane _ (requested old desired now r) =
    requested-sane desired now old (Reachable-sane old r)
Reachable-sane _ (redeployed old now r) = redeployed-sane now old (Reachable-sane old r)

abbrev pub is_waiting : RoomState → Bool
is_waiting RoomState.provisioning = true
is_waiting RoomState.idle = true
is_waiting RoomState.failed = true
is_waiting _ = false

abbrev pub has_directory : RoomState → Bool
has_directory RoomState.provisioning = false
has_directory RoomState.deleting = false
has_directory _ = true

-- However the steps end, and whatever is asked for meanwhile, a room that is starting, running or
-- degraded has an address to show; a room that is idle, failed or being provisioned shows none; no
-- room has missed more than three sweeps, and a running one has missed at most two; and a room that
-- is none of being provisioned and being deleted has had a directory made for it.
pub Reachable-advertised :
    (row : RoomRow)
    → Reachable row
    → ((is_live row.state && is_none row.advertised) ≡ false)
      × ((is_waiting row.state && is_some row.advertised) ≡ false)
      × (row.not_ready_sweeps ≤ 3)
      × ((is_running_state row.state && ltb 2 row.not_ready_sweeps) ≡ false)
      × ((has_directory row.state && is_none row.provisioned_at) ≡ false)
unfolding sane
Reachable-advertised row r = let h = Reachable-sane row r in ground arith
