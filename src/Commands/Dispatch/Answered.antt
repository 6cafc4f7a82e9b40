-- ===== src/Commands/Dispatch/Answered.antt =====
-- What every command comes to.
use puna.Common.{
  ℕ, ◌≡◌, refl, Bool, true, false, Option, none, some, String, List, arith, is_some, ◌⊎◌, inl, inr,
  Option-cases, Bool-cases, ℤ,
}
use puna.Filters.Rule.{Rule}
use puna.Model.SlotAuth.{SlotAuth}
use puna.Plan.View.{RoomDeployment}
use puna.Spec.Secret.{RoomSecrets}
use puna.Roster.Slots.{Slot}
use puna.Apply.{Reply}
use puna.Commands.Kind.{RoomCommand, CommandState, disposition_state, from_status}
use puna.Commands.Probe.{said, classify}
use puna.Commands.Queue.{Row}
use puna.Commands.Dispatch.{
  World, Effect, Outcome, execute, reachable, rotate, push_filter, passthrough, push_password,
  apply_room_secret, disposition, after_secret, rotate_owned, rotate_read, by_command,
}

-- The state is the last one, and says whether there is an answer or a reason.
abbrev pub IsSettled : Outcome → Type 0
IsSettled o =
    ((o.state ≡ CommandState.ok) × (is_some o.result ≡ true) × (o.error ≡ none))
    ⊎ ((o.state ≡ CommandState.failed) × (o.result ≡ none) × (is_some o.error ≡ true))
    ⊎ ((o.state ≡ CommandState.rejected) × (o.result ≡ none) × (is_some o.error ≡ true))

module _ (F : Type 0) {J : Type 0} where
  passthrough-IsSettled : (w : World J) (c : RoomCommand) → IsSettled (passthrough {F = F} w c).0
  unfolding passthrough disposition disposition_state from_status said classify
  passthrough-IsSettled w c = ground arith

  push_filter-IsSettled :
      (decode : J → Option (List (Rule F))) (w : World J) (slot : Option ℕ)
      → IsSettled (push_filter decode w slot).0
  unfolding push_filter
  push_filter-IsSettled decode w slot = ground arith

  push_password-IsSettled :
      (w : World J) (n : ℕ) (slots : List Slot) → IsSettled (push_password {F = F} w n slots).0
  unfolding push_password
  push_password-IsSettled w n slots = ground arith

  after_secret-IsSettled :
      (w : World J) (n : ℕ) (slots : List Slot) (written : Bool × List (Effect F))
      → IsSettled (after_secret w n slots written).0
  after_secret-IsSettled w n slots (true, calls) = push_password-IsSettled w n slots
  after_secret-IsSettled w n slots (false, calls) = inr (inl (refl, refl, refl))

  rotate_owned-IsSettled :
      (to_json : List (ℤ × String) → String) (w : World J) (room n : ℕ)
      (mode : SlotAuth × Option String) (secrets : RoomSecrets) (slots : List Slot)
      (deployment : Reply (Option RoomDeployment))
      → IsSettled (rotate_owned {F = F} to_json w room n mode secrets slots deployment).0
  rotate_owned-IsSettled to_json w room n mode secrets slots (Reply.ok (some d)) =
      after_secret-IsSettled w n slots (apply_room_secret to_json w room mode secrets slots d.uid)
  rotate_owned-IsSettled to_json w room n mode secrets slots _ = inr (inl (refl, refl, refl))

  rotate_read-IsSettled :
      (to_json : List (ℤ × String) → String) (w : World J) (room n : ℕ)
      (mode : Option (SlotAuth × Option String)) (secrets : Option RoomSecrets)
      (slots : Option (List Slot))
      → IsSettled (rotate_read {F = F} to_json w room n mode secrets slots).0
  rotate_read-IsSettled to_json w room n (some mode) (some secrets) (some slots) =
      rotate_owned-IsSettled to_json w room n mode secrets slots w.deployment
  rotate_read-IsSettled to_json w room n _ _ _ = inr (inl (refl, refl, refl))

module _ {F J : Type 0} (decode : J → Option (List (Rule F)))
    (to_json : List (ℤ × String) → String) where
  by_command-IsSettled :
      (w : World J) (room : ℕ) (c : RoomCommand)
      → IsSettled (by_command {F = F} decode to_json w room c).0
  unfolding rotate
  by_command-IsSettled w room (RoomCommand.rotate_password n) =
      rotate_read-IsSettled F to_json w room n w.room w.secrets w.slots
  by_command-IsSettled w room (RoomCommand.apply_filters slot) =
      push_filter-IsSettled F decode w slot
  by_command-IsSettled w room c = passthrough-IsSettled F w c

  -- Whatever is answered while a command is run, it ends in one of three ways: ok with a result and no
  -- reason, failed with a reason and no result, or rejected with a reason and no result.
  pub execute-IsSettled :
      (w : World J) (claimed : Row RoomCommand)
      → IsSettled (execute {F = F} decode to_json w claimed).0
  unfolding execute
  execute-IsSettled w claimed = elim (Bool-cases w.commands) [
    | inr old ↦ rw (old, execute) (inr (inr (refl, refl, refl)))
    | inl capable ↦ elim (Option-cases (reachable w)) [
      | inl down ↦ rw (capable, down, execute) (inr (inr (refl, refl, refl)))
      | inr (endpoint, up) ↦
          rw (capable, up, execute) (by_command-IsSettled w claimed.room_id claimed.command)
    ]
  ]
