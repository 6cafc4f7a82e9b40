-- ===== src/Scenarios/Passes.antt =====
-- Passes over several rooms.
use puna.Common.{◌≡◌, refl, false, some, [], ◌∷◌, pos, Memᴰ, count_if, min, sort_by_key}
use puna.Plan.View.{RoomView, deployment}
use puna.Plan.Decide.{Step, step_for}
use puna.Plan.Pass.{
  Action, Planned, TickKind, planned, plan, is_recreate, is_reap, converging, by_age, by_idle,
}
use puna.Plan.Pass.Caps.{plan-caps}
use puna.Plan.Pass.Exact.{plan_sound, plan-complete}
use puna.Scenarios.Data.{now, hour, quieter, asked_late, asked_early, resting, rooms, cluster}

-- The quieter room is reaped, the earlier request is served, and the idle room is started.
full_pass :
    plan rooms cluster now 1 (pos hour) TickKind.reconcile
    ≡ record { room = 2; lock_key = quieter.lock_key; step = Step.reap }
      ∷ record { room = 5; lock_key = asked_early.lock_key; step = Step.recreate }
      ∷ record { room = 6; lock_key = resting.lock_key; step = Step.start }
      ∷ []
unfolding plan by_age by_idle sort_by_key
full_pass = refl

short_pass :
    plan rooms cluster now 1 (pos hour) TickKind.converge
    ≡ record { room = 6; lock_key = resting.lock_key; step = Step.start } ∷ []
unfolding plan by_age by_idle sort_by_key
short_pass = refl

one_room_in_flight : converging rooms cluster ≡ 1
unfolding converging
one_room_in_flight = refl

plan-caps_example :
    let actions = plan rooms cluster now 1 (pos hour) TickKind.reconcile in
    let decided = planned rooms cluster now (pos hour) TickKind.reconcile in
    (count_if (λ a. is_recreate a.step) actions ≡ min 1 (count_if (λ e. is_recreate e.1) decided))
    × (count_if (λ a. is_reap a.step) actions ≡ min 1 (count_if (λ e. is_reap e.1) decided))
plan-caps_example = plan-caps rooms cluster now 1 (pos hour) TickKind.reconcile

abbrev start_resting : Action
start_resting = record { room = 6; lock_key = resting.lock_key; step = Step.start }

plan_sound_example :
    (room : RoomView) × Memᴰ room (resting ∷ [])
    × (start_resting.room ≡ room.id)
    × (start_resting.lock_key ≡ room.lock_key)
    × (step_for room (deployment cluster room.id) now (pos hour) ≡ some Step.start)
    × (false ≡ false)
    × (false ≡ false)
    × (false ≡ false)
unfolding plan by_age by_idle sort_by_key
plan_sound_example =
    plan_sound (resting ∷ []) cluster now 1 (pos hour) TickKind.converge start_resting
      (Memᴰ.head refl)

plan-complete_example :
    Memᴰ start_resting (plan (resting ∷ []) cluster now 0 (pos hour) TickKind.converge)
unfolding step_for deployment
plan-complete_example =
    plan-complete (resting ∷ []) cluster now 0 (pos hour) TickKind.converge resting Step.start
      (Memᴰ.head refl) refl refl refl

abbrev late_entry : Planned
late_entry = record { index = 0; room = asked_late; step = Step.recreate }

abbrev early_entry : Planned
early_entry = record { index = 1; room = asked_early; step = Step.recreate }
