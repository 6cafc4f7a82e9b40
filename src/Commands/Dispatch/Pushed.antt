-- ===== src/Commands/Dispatch/Pushed.antt =====
-- What a command makes of calls to the cluster and to the room, and in which order.
use puna.Common.{ℕ, ◌≡◌, Bool, true, false, Option, some, String, List, [], ◌∷◌, map, ℤ}
use puna.Filters.Rule.{Rule}
use puna.Filters.Stored.{StoredFilters}
use puna.Model.SlotAuth.{SlotAuth}
use puna.Plan.View.{RoomDeployment}
use puna.Apply.{Reply, SecretSpec}
use puna.Spec.Secret.{RoomSecrets, build}
use puna.Spec.Secret
use puna.Roster.Slots.{Slot}
use puna.Roster.Slots.Built.{to_secret}
use puna.Commands.Kind.{RoomCommand}
use puna.Commands.Dispatch.{World, Effect, password_of, stored_rules}

-- A command that the room itself has.
abbrev pub is_pahoa : RoomCommand → Bool
is_pahoa (RoomCommand.rotate_password n) = false
is_pahoa (RoomCommand.apply_filters slot) = false
is_pahoa _ = true

-- The Secret is the room's, of the slots that were read, and owned by the room's Deployment.
pub record IsRendered {J : Type 0} (to_json : List (ℤ × String) → String) (w : World J) (room : ℕ)
    (slots : List Slot) (spec : SecretSpec) : Type 0 where
  pub mode : SlotAuth × Option String
  pub secrets : RoomSecrets
  pub deployment : RoomDeployment
  pub mode_read : w.room ≡ some mode
  pub secrets_read : w.secrets ≡ some secrets
  pub slots_read : w.slots ≡ some slots
  pub deployment_read : w.deployment ≡ Reply.ok (some deployment)
  pub named : spec.room_id ≡ room
  pub built : build to_json mode.0 mode.1 secrets (map to_secret slots) ≡ Secret.ok spec.contents
  pub owned : spec.owner ≡ some deployment.uid

module _ {F J : Type 0} (decode : J → Option (List (Rule F)))
    (to_json : List (ℤ × String) → String) where
  pub data Orderly (w : World J) (room : ℕ) (command : RoomCommand) : List (Effect F) → Type 0 where
    silent : Orderly w room command []
    told : is_pahoa command ≡ true → Orderly w room command (Effect.send command ∷ [])
    filtered :
        (slot : Option ℕ) (stored : StoredFilters J)
        → command ≡ RoomCommand.apply_filters slot
        → w.filters ≡ some stored
        → Orderly w room command (
            Effect.set_filter (record { slot = slot; rules = stored_rules decode slot stored })
            ∷ [])
    written :
        (n : ℕ) (slots : List Slot) (spec : SecretSpec)
        → command ≡ RoomCommand.rotate_password n
        → IsRendered to_json w room slots spec
        → Orderly w room command (Effect.write_secret spec ∷ [])
    rotated :
        (n : ℕ) (slots : List Slot) (spec : SecretSpec) (password : String)
        → command ≡ RoomCommand.rotate_password n
        → IsRendered to_json w room slots spec
        → w.secret_applied ≡ Reply.ok tt
        → password_of n slots ≡ some password
        → Orderly w room command (Effect.write_secret spec ∷ Effect.set_password n password ∷ [])
