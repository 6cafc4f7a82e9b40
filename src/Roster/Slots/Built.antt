-- ===== src/Roster/Slots/Built.antt =====
-- The Secret of a room can be built, whatever was called on its slots and its password mode.
use puna.Common.{
  ℕ, ◌≡◌, ◌≢◌, refl, ap, Bool, true, not, Option, none, some, String, List, [], ◌∷◌, map, keep,
  arith, ◌||◌, is_some, All, All-imply, any_of, ℤ, pos,
}
use puna.Model.SlotAuth.{SlotAuth}
use puna.Spec.Secret.{RoomSecrets, SecretError, missing, build, by_mode}
use puna.Spec.Secret
use puna.Roster.Slots.{Slot, Desk, in_room, copied, copy_slots, GenerationSlot}
use puna.Roster.Slots.Calls.{SlotCall, run_calls}
use puna.Roster.Slots.Armed.{fits, fits_password, is_per_slot, IsArmed, run_calls-IsArmed}

-- What the Secret reads of a slot.
abbrev pub to_secret : Slot → Secret.Slot
to_secret s = record { slot_number = pos s.slot_number; password = s.password }

-- What the Secret reads of the room's slots.
abbrev pub secret_slots : Desk → List Secret.Slot
secret_slots d = map to_secret (keep (in_room d.room_id) d.slots)

missing-secret_slots :
    (mode : SlotAuth) (room : ℕ) (slots : List Slot)
    → is_per_slot mode ≡ true
    → All (λ s. fits mode room s ≡ true) slots
    → missing (map to_secret (keep (in_room room) slots)) ≡ []
unfolding missing
missing-secret_slots mode room [] e h = refl
missing-secret_slots mode room (s ∷ slots) e h =
    ground (arith, missing-secret_slots mode room slots e h.1)

abbrev pub IsBuilt : Secret.Answer (List (String × String)) → Type 0
IsBuilt answer = (data_of_secret : List (String × String)) × (answer ≡ Secret.ok data_of_secret)

with_server-IsBuilt :
    (to_json : List (ℤ × String) → String) (password : Option String)
    (answer : Secret.Answer (List (String × String)))
    → IsBuilt answer
    → IsBuilt (Secret.with_server to_json password answer)
unfolding Secret.insert
with_server-IsBuilt to_json none (Secret.ok so_far) (d, e) = (so_far, refl)
with_server-IsBuilt to_json (some p) (Secret.ok so_far) (d, e) = (_, refl)
with_server-IsBuilt to_json password (Secret.err error) (d, e) = cc

-- In the mode of the slots: there is one, and none lacks its password.
by_mode-IsBuilt :
    (to_json : List (ℤ × String) → String) (mode : SlotAuth) (password : Option String)
    (slots : List Secret.Slot) (so_far : List (String × String))
    → fits_password mode password ≡ true
    → (is_per_slot mode ≡ true → slots ≢ [])
    → (is_per_slot mode ≡ true → missing slots ≡ [])
    → IsBuilt (by_mode to_json mode password slots so_far)
unfolding by_mode
by_mode-IsBuilt to_json SlotAuth.none none slots so_far e some_slot all_armed = (so_far, refl)
by_mode-IsBuilt to_json SlotAuth.none (some p) slots so_far e some_slot all_armed = cc
by_mode-IsBuilt to_json SlotAuth.room none slots so_far e some_slot all_armed = cc
by_mode-IsBuilt to_json SlotAuth.room (some p) slots so_far e some_slot all_armed = (_, refl)
by_mode-IsBuilt to_json SlotAuth.per_slot (some p) slots so_far e some_slot all_armed = cc
by_mode-IsBuilt to_json SlotAuth.per_slot none [] so_far e some_slot all_armed =
    absurd (some_slot refl refl)
by_mode-IsBuilt to_json SlotAuth.per_slot none (s ∷ slots) so_far e some_slot all_armed =
    (_, ap (λ l. Secret.complete to_json l (s ∷ slots) so_far) (all_armed refl))

some_slot_of :
    (room : ℕ) (slots : List Slot)
    → any_of (in_room room) slots ≡ true
    → map to_secret (keep (in_room room) slots) ≢ []
some_slot_of room [] e = cc
some_slot_of room (s ∷ slots) e = ground (arith, some_slot_of room slots)

IsArmed-IsBuilt :
    (to_json : List (ℤ × String) → String) (d : Desk) (secrets : RoomSecrets)
    → IsArmed d
    → IsBuilt (build to_json d.slot_auth d.password secrets (secret_slots d))
unfolding build
IsArmed-IsBuilt to_json d secrets h = with_server-IsBuilt to_json secrets.server_password _ (
    by_mode-IsBuilt to_json d.slot_auth d.password (secret_slots d) _ h.0
      (λ e. some_slot_of d.room_id d.slots h.1)
      (λ e. missing-secret_slots d.slot_auth d.room_id d.slots e h.2))

-- A room as it is created: `create` of room.rs gives it a password just in the mode of the room.
abbrev pub created : ℕ → SlotAuth → Option String → Bool → List GenerationSlot → List Slot → Desk
created room mode password hidden entries slots = record {
  room_id = room;
  slot_auth = mode;
  password = password;
  slots = copy_slots room mode hidden entries slots;
}

created-IsArmed :
    (room : ℕ) (mode : SlotAuth) (password : Option String) (hidden : Bool) (entry : GenerationSlot)
    (entries : List GenerationSlot) (slots : List Slot)
    → fits_password mode password ≡ true
    → All (λ s. fits mode room s ≡ true) slots
    → IsArmed (created room mode password hidden (entry ∷ entries) slots)
unfolding copy_slots copied
created-IsArmed room mode password hidden entry entries slots e h =
    (e, ground arith, all_fit (entry ∷ entries))
  where
    all_fit :
        (more : List GenerationSlot)
        → All (λ s. fits mode room s ≡ true) (copy_slots room mode hidden more slots)
    all_fit [] = h
    all_fit (x ∷ more) = (ground arith, all_fit more)

-- What `apply_room_secret` of sweep.rs renders.
abbrev pub secret_of :
    (List (ℤ × String) → String) → RoomSecrets → Desk → Secret.Answer (List (String × String))
secret_of to_json secrets d = build to_json d.slot_auth d.password secrets (secret_slots d)

-- A room that is created with at least one slot, and with a room password just in the mode of the room,
-- can have its Secret built after any calls on its slots and its password mode, whatever these draw; and
-- no slot then withholds a password that it does not have. The rows that the table held before withhold
-- none that they do not have, and in the mode of the slots those of this room, if any, have passwords.
pub run_calls-IsBuilt :
    (to_json : List (ℤ × String) → String) (secrets : RoomSecrets) (calls : List SlotCall)
    (room : ℕ) (mode : SlotAuth) (password : Option String) (hidden : Bool) (entry : GenerationSlot)
    (entries : List GenerationSlot) (slots : List Slot)
    → fits_password mode password ≡ true
    → All (λ s. fits mode room s ≡ true) slots
    → IsBuilt (
        secret_of to_json secrets
          (run_calls calls (created room mode password hidden (entry ∷ entries) slots)))
      × All
          (λ s. not s.password_hidden || is_some s.password ≡ true)
          (run_calls calls (created room mode password hidden (entry ∷ entries) slots)).slots
run_calls-IsBuilt to_json secrets calls room mode password hidden entry entries slots e h =
    let armed =
      run_calls-IsArmed calls _
        (created-IsArmed room mode password hidden entry entries slots e h) in
    (IsArmed-IsBuilt to_json _ secrets armed, All-imply _ _ (λ s f. ground arith) _ armed.2)
