-- ===== src/Scenarios/Decisions.antt =====
-- Decisions about one room.
use puna.Common.{ℕ, ◌+◌, ◌<◌, ◌≡◌, refl, ◌↔◌, true, false, none, some, pos, arith, seconds, is_some}
use puna.Model.RoomState.{RoomState}
use puna.Model.DesiredState.{DesiredState}
use puna.Plan.View.{RoomView}
use puna.Plan.Decide.{Step, step_for}
use puna.Plan.Decide.Priority.{step_for-live_at_rest}
use puna.Plan.Decide.Reaping.{step_for-reap_iff}
use puna.Plan.Decide.Deadlines.{step_for-fail_start_iff}
use puna.Scenarios.Data.{now, hour, quiet, busy, deployed}

abbrev broken : RoomView
broken = record quiet { state = RoomState.failed; retry_after = some (seconds 9999) }

abbrev closing : RoomView
closing = record quiet { desired = DesiredState.closed }

step_for-live_at_rest_example : step_for closing none now (pos hour) ≡ some Step.stop
step_for-live_at_rest_example = step_for-live_at_rest closing none now (pos hour) refl refl

step_for-reap_iff_example :
    (step_for quiet (some (deployed 1 "a" 1)) now (pos hour) ≡ some Step.reap) ↔ (
      (quiet.state ≡ RoomState.running)
      × (quiet.desired ≡ DesiredState.running)
      × (is_some (some (deployed 1 "a" 1)) ≡ true)
      × (quiet.redeploy_requested_at ≡ none)
      × (quiet.pinned ≡ false)
      × ((d since : ℕ) × (pos hour ≡ pos d)
          × (0 < d)
          × (quiet.idle_since ≡ some since)
          × (since + d < now)))
step_for-reap_iff_example = step_for-reap_iff quiet (some (deployed 1 "a" 1)) now (pos hour)

abbrev slow : RoomView
slow = record busy { state = RoomState.starting }

slow_start_fails : step_for slow (some (deployed 3 "a" 0)) now (pos hour) ≡ some Step.fail_start
unfolding step_for
slow_start_fails = (step_for-fail_start_iff slow (deployed 3 "a" 0) now (pos hour)).1 (
  refl,
  record { wanted = refl; no_redeploy = refl; not_idle = refl; same_spec = refl },
  refl,
  omega arith,
)
