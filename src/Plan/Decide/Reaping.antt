-- ===== src/Plan/Decide/Reaping.antt =====
-- When `step_for` of puna-orchestrator/src/plan.rs takes a room down or recreates it.
use puna.Common.{
  ℕ, ◌+◌, ◌<◌, ◌≡◌, ◌↔◌, ◌≢◌, ◌⊎◌, true, false, ◌&&◌, Option, none, some, arith, ℤ, pos, negsuc,
  is_some, Option-cases, inl, inr, refl, same_text,
}
use puna.Model.RoomState.{RoomState, is_live}
use puna.Model.DesiredState.{DesiredState}
use puna.Plan.View.{RoomView, RoomDeployment, should_reap}
use puna.Plan.Decide.{Step, step_for, is_running_state}

-- The reaper acts on a timeout exactly when it is a number d above zero, the room is not pinned, a
-- moment since which it is idle is known, and more than d has passed since.
abbrev pub IsQuiet : RoomView → ℕ → ℤ → Type 0
IsQuiet room now idle_timeout =
    (room.pinned ≡ false)
    × ((d since : ℕ) × (idle_timeout ≡ pos d)
        × (0 < d)
        × (room.idle_since ≡ some since)
        × (since + d < now))

should_reap-IsQuiet :
    (room : RoomView) (now : ℕ) (idle_timeout : ℤ)
    → should_reap room now idle_timeout ≡ true
    → IsQuiet room now idle_timeout
unfolding should_reap
should_reap-IsQuiet room now (negsuc d) h = cc
should_reap-IsQuiet room now (pos ℕ.zero) h = cc
should_reap-IsQuiet room now (pos (ℕ.suc d)) h = elim (Option-cases room.idle_since) [
  | inl e ↦ absurd (ground arith)
  | inr (since, e) ↦ (ground arith, (ℕ.suc d, since, refl, omega arith, e, ground arith))
]

IsQuiet-should_reap :
    (room : RoomView) (now : ℕ) (idle_timeout : ℤ)
    → IsQuiet room now idle_timeout
    → should_reap room now idle_timeout ≡ true
unfolding should_reap
IsQuiet-should_reap room now idle_timeout (pinned, (d, since, e, positive, at, over)) = ground arith

module _ (room : RoomView) (deployment : Option RoomDeployment) (now : ℕ) (idle_timeout : ℤ) where
  step_for-reap :
      step_for room deployment now idle_timeout ≡ some Step.reap
      → (room.state ≡ RoomState.running)
        × (room.desired ≡ DesiredState.running)
        × (is_some deployment ≡ true)
        × (room.redeploy_requested_at ≡ none)
        × (should_reap room now idle_timeout ≡ true)
  unfolding step_for
  step_for-reap h = ground arith

  reap-step_for :
      room.state ≡ RoomState.running
      → room.desired ≡ DesiredState.running
      → is_some deployment ≡ true
      → room.redeploy_requested_at ≡ none
      → should_reap room now idle_timeout ≡ true
      → step_for room deployment now idle_timeout ≡ some Step.reap
  unfolding step_for
  reap-step_for state desired has redeploy quiet = ground arith

  -- A room is reaped exactly when it is running and wanted running, has a Deployment, nobody asked
  -- for a redeploy of it, it is not pinned, the timeout is above zero, and a moment since which the
  -- room is idle is known and longer ago than the timeout.
  pub step_for-reap_iff : (step_for room deployment now idle_timeout ≡ some Step.reap) ↔ (
      (room.state ≡ RoomState.running)
      × (room.desired ≡ DesiredState.running)
      × (is_some deployment ≡ true)
      × (room.redeploy_requested_at ≡ none)
      × (room.pinned ≡ false)
      × ((d since : ℕ) × (idle_timeout ≡ pos d)
          × (0 < d)
          × (room.idle_since ≡ some since)
          × (since + d < now)))
  step_for-reap_iff = (
    λ h.
        let (state, desired, has, redeploy, quiet) = step_for-reap h in
        let (pinned, known) = should_reap-IsQuiet room now idle_timeout quiet in
        (state, desired, has, redeploy, pinned, known),
    λ (state, desired, has, redeploy, pinned, known).
        reap-step_for state desired has redeploy
          (IsQuiet-should_reap room now idle_timeout (pinned, known)),
  )

-- A room with no Deployment is never recreated. One with a Deployment is recreated exactly when it
-- is live and wanted running, and either a redeploy was asked for, or the Deployment's hash is not
-- the recorded one and the room is not to be reaped.
pub step_for-recreate_iff :
    (room : RoomView) (d : RoomDeployment) (now : ℕ) (idle_timeout : ℤ)
    → (step_for room none now idle_timeout ≢ some Step.recreate)
      × ((step_for room (some d) now idle_timeout ≡ some Step.recreate) ↔ (
          (is_live room.state ≡ true)
          × (room.desired ≡ DesiredState.running)
          × ((is_some room.redeploy_requested_at ≡ true)
              ⊎ ((same_text d.spec_hash room.spec_hash ≡ false)
                  × ((is_running_state room.state && should_reap room now idle_timeout) ≡ false)))))
unfolding step_for
step_for-recreate_iff room d now idle_timeout = ground arith
