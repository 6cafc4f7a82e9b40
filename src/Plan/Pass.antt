-- ===== src/Plan/Pass.antt =====
-- One pass over all rooms: `plan`, `converging`, `leaves_work_pending` and `TickKind` of
-- puna-orchestrator/src/plan.rs.
mod Places
mod Budget
pub mod Caps
pub mod Exact
pub mod Order
use puna.Common.{
  ℕ, suc, Bool, true, false, ◌&&◌, ◌||◌, not, Option, none, some, List, [], ◌∷◌, ◌++◌, map,
  if◌then◌else◌, is_some, max, ℤ, keep, drop, length, contains, sort_by_key,
}
use puna.Model.RoomState.{RoomState}
use puna.Model.DesiredState.{DesiredState, is_deleted, is_running}
use puna.Plan.View.{RoomView, RoomDeployment, ClusterSnapshot, deployment}
use puna.Plan.Decide.{Step, step_for}

pub data TickKind : Type 0 where
  reconcile converge : TickKind

abbrev pub max_reaps_per_tick : ℕ
max_reaps_per_tick = 1

unfoldable pub leaves_work_pending : Step → Bool
leaves_work_pending Step.provision = true
leaves_work_pending Step.start = true
leaves_work_pending Step.recreate = true
leaves_work_pending Step.retry = true
leaves_work_pending Step.stop = true
leaves_work_pending Step.delete = true
leaves_work_pending Step.reap = true
leaves_work_pending (Step.mark_idle reason) = true
leaves_work_pending Step.mark_running = false
leaves_work_pending Step.mark_degraded = false
leaves_work_pending Step.not_ready = false
leaves_work_pending Step.fail_start = false

-- The closure of the filter in `converging`.
abbrev pub in_flight : RoomState → DesiredState → Bool
in_flight RoomState.provisioning desired = true
in_flight RoomState.starting desired = true
in_flight RoomState.stopping desired = true
in_flight RoomState.idle desired = is_running desired
in_flight _ desired = false

unfoldable pub converging : List RoomView → ClusterSnapshot → ℕ
converging rooms cluster =
    max (length (keep (λ room. is_deleted room.desired || in_flight room.state room.desired) rooms))
      (length (keep (λ d. d.deleting && is_some d.room_id) cluster.deployments))

pub record Action : Type 0 where
  pub room : ℕ
  pub lock_key : ℤ
  pub step : Step

-- An element of `planned.iter().enumerate()`.
pub record Planned : Type 0 where
  pub index : ℕ
  pub room : RoomView
  pub step : Step

abbrev pub is_recreate : Step → Bool
is_recreate Step.recreate = true
is_recreate _ = false

abbrev pub is_reap : Step → Bool
is_reap Step.reap = true
is_reap _ = false

abbrev pub is_not_ready : Step → Bool
is_not_ready Step.not_ready = true
is_not_ready _ = false

-- The filter on the kind of pass: a short pass takes no paced step.
abbrev pub allowed : TickKind → Step → Bool
allowed TickKind.reconcile s = true
allowed TickKind.converge s = not (is_recreate s || is_not_ready s || is_reap s)

abbrev pub admit :
    TickKind → RoomView → Option Step → List (RoomView × Step) → List (RoomView × Step)
admit kind room none rest = rest
admit kind room (some step) rest = if allowed kind step then (room, step) ∷ rest else rest

-- The decisions of the pass, in the order of the rooms.
unfoldable pub planned : List RoomView → ClusterSnapshot → ℕ → ℤ → TickKind → List (RoomView × Step)
unfolding step_for deployment
planned [] cluster now idle_timeout kind = []
planned (room ∷ rooms) cluster now idle_timeout kind =
    admit kind room (step_for room (deployment cluster room.id) now idle_timeout)
      (planned rooms cluster now idle_timeout kind)

-- `Iterator::enumerate`, from an index on.
unfoldable pub enumerate : ℕ → List (RoomView × Step) → List Planned
enumerate i [] = []
enumerate i ((room, step) ∷ rest) =
    record { index = i; room = room; step = step } ∷ enumerate (suc i) rest

abbrev pub age_key : Planned → Option ℕ × ℕ
age_key p = (p.room.redeploy_requested_at, p.room.id)

abbrev pub idle_key : Planned → Option ℕ × ℕ
idle_key p = (p.room.idle_since, p.room.id)

-- The entries with a capped step, first come first.
unfoldable pub by_age : List Planned → List Planned
by_age entries = sort_by_key age_key (keep (λ p. is_recreate p.step) entries)

unfoldable pub by_idle : List Planned → List Planned
by_idle entries = sort_by_key idle_key (keep (λ p. is_reap p.step) entries)

abbrev pub indices : List Planned → List ℕ
indices = map (λ p. p.index)

unfoldable pub deferred : ℕ → List Planned → List ℕ
unfolding by_age by_idle
deferred max_recreates entries =
    indices (drop max_recreates (by_age entries))
    ++ indices (drop max_reaps_per_tick (by_idle entries))

unfoldable pub kept : ℕ → List Planned → List Planned
unfolding deferred
kept max_recreates entries =
    keep (λ p. not (contains (deferred max_recreates entries) p.index)) entries

abbrev pub to_action : Planned → Action
to_action p = record { room = p.room.id; lock_key = p.room.lock_key; step = p.step }

unfoldable pub plan : List RoomView → ClusterSnapshot → ℕ → ℕ → ℤ → TickKind → List Action
unfolding planned enumerate kept
plan rooms cluster now max_recreates idle_timeout kind =
    map to_action (kept max_recreates (enumerate 0 (planned rooms cluster now idle_timeout kind)))
