-- ===== src/Scenarios/Rows.antt =====
-- Rows and what steps make of them.
use puna.Common.{
  ℕ, ◌+◌, ◌≤◌, ◌≡◌, refl, Bool, true, false, ◌&&◌, none, some, [], pos, arith, seconds, is_some,
  is_none, ltb, str_eq,
}
use puna.Model.RoomState.{RoomState, is_live}
use puna.Model.DesiredState.{DesiredState}
use puna.Plan.View.{RoomView}
use puna.Plan.Decide.{Step, step_for, is_running_state}
use puna.Steps.Row.{RoomRow, Advertised, provisioned}
use puna.Steps.View.{Fetched}
use puna.Steps.Execute.{
  World, Tried, Outcome, ◌>>=◌, fail_with, execute, provision, Allocated, Rendered,
}
use puna.Steps.Life.{Reachable, Reachable-advertised, is_waiting, has_directory}
use puna.Steps.Failing.{at_row, fail_with-paced, fail_with-stranded, counted}
use puna.Steps.Keeps.{on_row}
use puna.Steps.Writes.Moves.{follows, execute-follows}
use puna.Scenarios.Data.{now, hour}
use puna.Scenarios.Starts.{answering, request}

-- A room as the web tier creates it.
abbrev fresh : RoomRow
fresh = record {
  id = 1;
  lock_key = pos 7;
  state = RoomState.provisioning;
  desired_state = DesiredState.running;
  desired_at = 0;
  state_changed_at = 0;
  provisioned_at = none;
  deployment_uid = none;
  spec_hash = none;
  desired_spec_hash = none;
  advertised = none;
  not_ready_sweeps = 0;
  failure_count = 0;
  retry_after = none;
  last_error = none;
  started_at = none;
  stopped_at = none;
  redeploy_requested_at = none;
  running_image = none;
  deployment_created_at = none;
  process_started_at = none;
  pinned_at = none;
  probed_at = none;
  probe_kind = none;
  last_check_at = none;
}

abbrev up : RoomRow
up = record fresh {
  state = RoomState.running;
  provisioned_at = some 5;
  advertised = some (record { host = "rooms"; port = 40000; filtered_port = none });
  started_at = some (seconds 1000);
  probed_at = some (seconds 9990);
  probe_kind = some "https";
  last_check_at = some (seconds 2000);
}

abbrev fetched_up : Fetched
fetched_up = record { row = up; state = "running"; desired_state = "running" }

abbrev view_up : RoomView
view_up = record {
  id = 1;
  lock_key = pos 7;
  state = RoomState.running;
  desired = DesiredState.running;
  spec_hash = none;
  desired_spec_hash = none;
  state_changed_at = 0;
  retry_after = none;
  not_ready_sweeps = 0;
  redeploy_requested_at = none;
  idle_since = some (seconds 2000);
  pinned = false;
}

-- Nothing fails, or the statements from the third on.
abbrev world : (ℕ → Bool) → World
world fails = record {
  fails = fails;
  now = λ n. seconds n;
  local_now = now;
  cluster = answering "10.0.0.1";
  lb_ip = "10.0.0.1";
  advertise_host = "rooms";
  takes_lock = true;
  has_generation = true;
  allocated = Allocated.port 40000;
  rendered = λ p. Rendered.gone;
  message = λ e. "error";
  contains = λ s t. str_eq s t;
  refusal_message = λ r. r.message;
}

abbrev calm : World
calm = world (λ n. false)

abbrev halting : World
halting = world (λ n. ltb 1 n)

abbrev made : RoomRow
made = record fresh {
  state = RoomState.idle;
  provisioned_at = some (seconds 4);
  state_changed_at = seconds 4;
}

Reachable-advertised_example :
    ((is_live made.state && is_none made.advertised) ≡ false)
    × ((is_waiting made.state && is_some made.advertised) ≡ false)
    × (made.not_ready_sweeps ≤ 3)
    × ((is_running_state made.state && ltb 2 made.not_ready_sweeps) ≡ false)
    × ((has_directory made.state && is_none made.provisioned_at) ≡ false)
unfolding execute provision ◌>>=◌ provisioned step_for
Reachable-advertised_example = Reachable-advertised made (
    Reachable.stepped fresh made (record view_up { state = RoomState.provisioning }) none now
      (pos hour) Step.provision calm (at_row fresh [] 0) (Reachable.created fresh refl refl refl)
      refl refl refl refl refl)

fail_with-paced_example :
    ((fail_with calm 1 "no pod" (at_row up [] 0)).0 ≡ Tried.ok Outcome.done)
    × ((after : RoomRow) × ((fail_with calm 1 "no pod" (at_row up [] 0)).1.row ≡ some after)
        × (after.state ≡ RoomState.failed)
        × (after.advertised ≡ none)
        × (after.failure_count ≡ up.failure_count + 1)
        × ((t : ℕ) × (after.retry_after ≡ some t)
            × (now + seconds 12 ≤ t)
            × (t ≤ now + seconds 720)))
fail_with-paced_example = fail_with-paced calm 1 "no pod" up [] 0 (λ k. refl) (omega arith)

abbrev view_failed : RoomView
view_failed = record view_up { state = RoomState.failed }

fail_with-stranded_example :
    ((counted (seconds 1) "no pod" up).state ≡ RoomState.failed)
    × (step_for view_failed none now (pos hour) ≡ none)
unfolding fail_with ◌>>=◌ puna.Steps.Row.failed
fail_with-stranded_example =
    fail_with-stranded halting 1 "no pod" up (counted (seconds 1) "no pod" up) [] 0 view_failed none
      now (pos hour) refl refl refl (omega arith) refl refl refl refl refl refl

-- A world whose spec is rendered and whose cluster gives the room its address.
abbrev serving : World
serving = record calm { rendered = λ p. Rendered.ready request.spec [] }

abbrev quiet_up : RoomRow
quiet_up = record up { desired_state = DesiredState.stopped }

execute-follows_example :
    on_row
      (follows Step.stop RoomState.running DesiredState.stopped)
      (execute halting Step.stop 1 (at_row quiet_up [] 0)).1.row
    ≡ true
unfolding step_for
execute-follows_example =
    execute-follows halting (record view_up { desired = DesiredState.stopped }) quiet_up none now
      (pos hour) Step.stop (at_row quiet_up [] 0) refl refl refl
