-- ===== src/Roster/Slots/Armed.antt =====
-- The slots of a room fit its password mode, whatever is called.
use puna.Common.{
  ℕ, ◌≡◌, refl, Bool, true, false, not, Option, String, List, [], ◌∷◌, keep, arith, ◌==◌, ◌&&◌,
  ◌||◌, is_some, is_none, All, All-imply, any_of,
}
use puna.Model.SlotAuth.{SlotAuth}
use puna.Roster.Slots.{
  Slot, Desk, update_where, at_slot, claim, claim_open, claim_for_owners, release,
  set_passwords_hidden, rotate_password, set_locked, set_slot_auth, rotate_each, taken, has_token,
  is_vacant_at, given_back, may_hide, hide, with_password, unlocked_at, locked_at_slot, lock,
  unlock, in_room, without_password,
}
use puna.Roster.Slots.Calls.{SlotCall, rows_after, desk_after, run_calls, All-update_where}

abbrev pub is_per_slot : SlotAuth → Bool
is_per_slot SlotAuth.per_slot = true
is_per_slot _ = false

-- The CHECK of the table, and in the mode of the slots a password for each slot of the room.
abbrev pub fits : SlotAuth → ℕ → Slot → Bool
fits mode room s =
    (not s.password_hidden || is_some s.password)
    && (not (is_per_slot mode && in_room room s) || is_some s.password)

abbrev pub fits_password : SlotAuth → Option String → Bool
fits_password SlotAuth.room password = is_some password
fits_password _ password = is_none password

-- The room has a slot, and its columns and slots fit its mode.
abbrev pub IsArmed : Desk → Type 0
IsArmed d =
    (fits_password d.slot_auth d.password ≡ true)
    × (any_of (in_room d.room_id) d.slots ≡ true)
    × All (λ s. fits d.slot_auth d.room_id s ≡ true) d.slots

any_of-update_where :
    (room : ℕ) (test : Slot → Bool) (change : Slot → Slot)
    → ((s : Slot) → (change s).room_id ≡ s.room_id)
    → (slots : List Slot) → any_of (in_room room) slots ≡ true
    → any_of (in_room room) (update_where test change slots) ≡ true
any_of-update_where room test change same [] e = e
any_of-update_where room test change same (s ∷ slots) e =
    ground (arith, same s, any_of-update_where room test change same slots)

-- What an update keeps whose changed rows fit.
abbrev Fitting : SlotAuth → ℕ → List Slot → Type 0
Fitting mode room slots =
    (any_of (in_room room) slots ≡ true) × All (λ s. fits mode room s ≡ true) slots

update_where-Fitting :
    (mode : SlotAuth) (room : ℕ) (test : Slot → Bool) (change : Slot → Slot)
    → ((s : Slot) → (change s).room_id ≡ s.room_id)
    → ((s : Slot) → test s ≡ true → fits mode room s ≡ true → fits mode room (change s) ≡ true)
    → (slots : List Slot) → Fitting mode room slots
    → Fitting mode room (update_where test change slots)
update_where-Fitting mode room test change same keeps slots h = (
  any_of-update_where room test change same slots h.0,
  All-update_where (λ s. fits mode room s ≡ true) test change (λ s f. ground (arith, keeps s)) slots
      h.1,
)

rotate_password-Fitting :
    (mode : SlotAuth) (room r k : ℕ) (password : String) (slots : List Slot)
    → Fitting mode room slots
    → Fitting mode room (rotate_password r k password slots).1
unfolding rotate_password
rotate_password-Fitting mode room r k password =
    update_where-Fitting mode room (at_slot r k) (with_password password) (λ s. refl)
      (λ s t f. ground arith)

claim_for_owners-Fitting :
    (mode : SlotAuth) (room now r : ℕ) (assignments : List (ℕ × ℕ)) (slots : List Slot)
    → Fitting mode room slots
    → Fitting mode room (claim_for_owners now r assignments slots).1
unfolding claim_for_owners
claim_for_owners-Fitting mode room now r [] slots h = h
claim_for_owners-Fitting mode room now r ((k, user) ∷ assignments) slots h =
    claim_for_owners-Fitting mode room now r assignments
      (update_where (is_vacant_at r k) (taken now user) slots)
      (update_where-Fitting mode room (is_vacant_at r k) (taken now user) (λ s. refl) (λ s t f. f)
        slots h)

rows_after-Fitting :
    (mode : SlotAuth) (room : ℕ) (call : SlotCall) (slots : List Slot)
    → Fitting mode room slots
    → Fitting mode room (rows_after call slots)
unfolding claim claim_open release set_passwords_hidden set_locked
rows_after-Fitting mode room (SlotCall.claim now token user) slots h =
    update_where-Fitting mode room (has_token token) (taken now user) (λ s. refl) (λ s t f. f) slots
      h
rows_after-Fitting mode room (SlotCall.claim_open now r k user) slots h =
    update_where-Fitting mode room (is_vacant_at r k) (taken now user) (λ s. refl) (λ s t f. f)
      slots h
rows_after-Fitting mode room (SlotCall.claim_for_owners now r assignments) slots h =
    claim_for_owners-Fitting mode room now r assignments slots h
rows_after-Fitting mode room (SlotCall.release r k token) slots h =
    update_where-Fitting mode room (at_slot r k) (given_back token) (λ s. refl) (λ s t f. f) slots h
rows_after-Fitting mode room (SlotCall.set_passwords_hidden r [] hidden) slots h = h
rows_after-Fitting mode room (SlotCall.set_passwords_hidden r (k ∷ numbers) hidden) slots h =
    update_where-Fitting mode room (may_hide r (k ∷ numbers) hidden) (hide hidden) (λ s. refl)
      (λ s t f. ground arith) slots h
rows_after-Fitting mode room (SlotCall.rotate_password r k password) slots h =
    rotate_password-Fitting mode room r k password slots h
rows_after-Fitting mode room (SlotCall.set_locked now r k true by) slots h =
    update_where-Fitting mode room (unlocked_at r k) (lock now by) (λ s. refl) (λ s t f. f) slots h
rows_after-Fitting mode room (SlotCall.set_locked now r k false by) slots h =
    update_where-Fitting mode room (locked_at_slot r k) unlock (λ s. refl) (λ s t f. f) slots h
rows_after-Fitting mode room (SlotCall.set_slot_auth m hidden password drawn) slots h = h

-- A slot of the room that has a password or whose turn is still to come, in a table that meets the CHECK.
abbrev is_covered : ℕ → List Slot → Slot → Bool
is_covered room entries s =
    (not s.password_hidden || is_some s.password)
    && (not (in_room room s)
        || is_some s.password
        || any_of (λ entry. entry.slot_number == s.slot_number) entries)

rotate_password-is_covered :
    (room : ℕ) (entry : Slot) (entries : List Slot) (password : String) (slots : List Slot)
    → All (λ s. is_covered room (entry ∷ entries) s ≡ true) slots
    → All
        (λ s. is_covered room entries s ≡ true)
        (rotate_password room entry.slot_number password slots).1
unfolding rotate_password
rotate_password-is_covered room entry entries password [] h = tt
rotate_password-is_covered room entry entries password (s ∷ slots) h =
    (ground arith, rotate_password-is_covered room entry entries password slots h.1)

rotate_each-is_covered :
    (room : ℕ) (drawn : ℕ → String) (entries slots : List Slot)
    → All (λ s. is_covered room entries s ≡ true) slots
    → All (λ s. is_covered room [] s ≡ true) (rotate_each room drawn entries slots)
unfolding rotate_each
rotate_each-is_covered room drawn [] slots h = h
rotate_each-is_covered room drawn (entry ∷ entries) slots h =
    rotate_each-is_covered room drawn entries
      (rotate_password room entry.slot_number (drawn entry.slot_number) slots).1
      (rotate_password-is_covered room entry entries (drawn entry.slot_number) slots h)

-- Each slot of the room stands in the list that the loop goes over.
covered_at_first :
    (room : ℕ) (before slots : List Slot)
    → All (λ s. not s.password_hidden || is_some s.password ≡ true) slots
    → ((s : Slot)
        → any_of (λ entry. entry.slot_number == s.slot_number) (keep (in_room room) slots) ≡ true
        → any_of (λ entry. entry.slot_number == s.slot_number) before ≡ true)
    → All (λ s. is_covered room before s ≡ true) slots
covered_at_first room before [] legal more = tt
covered_at_first room before (s ∷ slots) legal more = (
  ground (arith, more s),
  covered_at_first room before slots legal.1 (λ t e. ground (arith, more t)),
)

rotate_each-any_of :
    (room : ℕ) (drawn : ℕ → String) (entries slots : List Slot)
    → any_of (in_room room) slots ≡ true
    → any_of (in_room room) (rotate_each room drawn entries slots) ≡ true
unfolding rotate_each rotate_password
rotate_each-any_of room drawn [] slots e = e
rotate_each-any_of room drawn (entry ∷ entries) slots e =
    rotate_each-any_of room drawn entries
      (update_where (at_slot room entry.slot_number) (with_password (drawn entry.slot_number))
        slots)
      (any_of-update_where room (at_slot room entry.slot_number)
        (with_password (drawn entry.slot_number)) (λ s. refl) slots e)

rotate_each-Fitting :
    (mode : SlotAuth) (room : ℕ) (drawn : ℕ → String) (slots : List Slot)
    → Fitting mode room slots
    → Fitting SlotAuth.per_slot room (rotate_each room drawn (keep (in_room room) slots) slots)
rotate_each-Fitting mode room drawn slots h = (
  rotate_each-any_of room drawn (keep (in_room room) slots) slots h.0,
  All-imply _ _ (λ s c. ground arith) (rotate_each room drawn (keep (in_room room) slots) slots)
      (rotate_each-is_covered room drawn (keep (in_room room) slots) slots (
        covered_at_first room (keep (in_room room) slots) slots
          (All-imply _ _ (λ s f. ground arith) slots h.1) (λ s e. e))),
)

cleared-Fitting :
    (old mode : SlotAuth) (room : ℕ) (slots : List Slot)
    → is_per_slot mode ≡ false
    → Fitting old room slots
    → Fitting mode room (update_where (in_room room) without_password slots)
cleared-Fitting old mode room slots other h =
    update_where-Fitting mode room (in_room room) without_password (λ s. refl)
      (λ s t f. ground arith) slots (h.0, All-imply _ _ (λ s f. ground arith) slots h.1)

set_slot_auth-IsArmed :
    (mode : SlotAuth) (hidden : Bool) (password : String) (drawn : ℕ → String) (d : Desk)
    → IsArmed d
    → IsArmed (set_slot_auth mode hidden password drawn d)
unfolding set_slot_auth
set_slot_auth-IsArmed SlotAuth.per_slot hidden password drawn d h =
    let after =
      update_where-Fitting SlotAuth.per_slot d.room_id (in_room d.room_id) (hide hidden) (λ s. refl)
        (λ s t f. ground arith)
        (rotate_each d.room_id drawn (keep (in_room d.room_id) d.slots) d.slots)
        (rotate_each-Fitting d.slot_auth d.room_id drawn d.slots (h.1, h.2)) in
    (refl, after.0, after.1)
set_slot_auth-IsArmed SlotAuth.none hidden password drawn d h =
    let after = cleared-Fitting d.slot_auth SlotAuth.none d.room_id d.slots refl (h.1, h.2) in
    (refl, after.0, after.1)
set_slot_auth-IsArmed SlotAuth.room hidden password drawn d h =
    let after = cleared-Fitting d.slot_auth SlotAuth.room d.room_id d.slots refl (h.1, h.2) in
    (refl, after.0, after.1)

desk_after-IsArmed : (call : SlotCall) (d : Desk) → IsArmed d → IsArmed (desk_after call d)
desk_after-IsArmed (SlotCall.set_slot_auth mode hidden password drawn) d h =
    set_slot_auth-IsArmed mode hidden password drawn d h
desk_after-IsArmed call d h =
    let after = rows_after-Fitting d.slot_auth d.room_id call d.slots (h.1, h.2) in
    (h.0, after.0, after.1)

pub run_calls-IsArmed : (calls : List SlotCall) (d : Desk) → IsArmed d → IsArmed (run_calls calls d)
unfolding run_calls
run_calls-IsArmed [] d h = h
run_calls-IsArmed (call ∷ calls) d h =
    run_calls-IsArmed calls (desk_after call d) (desk_after-IsArmed call d h)
