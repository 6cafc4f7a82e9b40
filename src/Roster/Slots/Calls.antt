-- ===== src/Roster/Slots/Calls.antt =====
-- The calls of the web tier on the slots and the password mode of a room, one after another.
use puna.Common.{ℕ, Bool, String, List, [], ◌∷◌, if◌then◌else◌, All}
use puna.Model.SlotAuth.{SlotAuth}
use puna.Roster.Slots.{Slot, Desk, update_where}
use puna.Roster.Slots

pub data SlotCall : Type 0 where
  claim : ℕ → String → ℕ → SlotCall
  claim_open : ℕ → ℕ → ℕ → ℕ → SlotCall
  claim_for_owners : ℕ → ℕ → List (ℕ × ℕ) → SlotCall
  release : ℕ → ℕ → String → SlotCall
  set_passwords_hidden : ℕ → List ℕ → Bool → SlotCall
  rotate_password : ℕ → ℕ → String → SlotCall
  set_locked : ℕ → ℕ → ℕ → Bool → ℕ → SlotCall
  set_slot_auth : SlotAuth → Bool → String → (ℕ → String) → SlotCall

-- The calls that write to the table of slots alone.
abbrev pub rows_after : SlotCall → List Slot → List Slot
rows_after (SlotCall.claim now token user) slots = (Slots.claim now token user slots).1
rows_after (SlotCall.claim_open now room n user) slots = (Slots.claim_open now room n user slots).1
rows_after (SlotCall.claim_for_owners now room assignments) slots =
    (Slots.claim_for_owners now room assignments slots).1
rows_after (SlotCall.release room n token) slots = Slots.release room n token slots
rows_after (SlotCall.set_passwords_hidden room numbers hidden) slots =
    (Slots.set_passwords_hidden room numbers hidden slots).1
rows_after (SlotCall.rotate_password room n password) slots =
    (Slots.rotate_password room n password slots).1
rows_after (SlotCall.set_locked now room n locked by) slots =
    (Slots.set_locked now room n locked by slots).1
rows_after (SlotCall.set_slot_auth mode hide_passwords room_password drawn) slots = slots

abbrev pub desk_after : SlotCall → Desk → Desk
desk_after (SlotCall.set_slot_auth mode hide_passwords room_password drawn) d =
    Slots.set_slot_auth mode hide_passwords room_password drawn d
desk_after call d = record d { slots = rows_after call d.slots }

unfoldable pub run_calls : List SlotCall → Desk → Desk
run_calls [] d = d
run_calls (call ∷ calls) d = run_calls calls (desk_after call d)

-- What every changed row keeps, the table keeps.
pub All-update_where {κ} :
    (P : Slot → Type κ) (test : Slot → Bool) (change : Slot → Slot)
    → ((s : Slot) → P s → P (if test s then change s else s))
    → (slots : List Slot) → All P slots
    → All P (update_where test change slots)
All-update_where P test change keeps [] h = tt
All-update_where P test change keeps (s ∷ slots) h =
    (keeps s h.0, All-update_where P test change keeps slots h.1)
