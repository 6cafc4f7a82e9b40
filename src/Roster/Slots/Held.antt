-- ===== src/Roster/Slots/Held.antt =====
-- Whoever holds a slot keeps it until it is given back.
use puna.Common.{
  ℕ, ◌≡◌, refl, Bool, true, false, Option, none, some, String, List, [], ◌∷◌, keep, if◌then◌else◌,
  arith, ◌==◌, ◌&&◌, is_some, is_none, All, inl, inr, Bool-cases,
}
use puna.Model.SlotAuth.{SlotAuth}
use puna.Roster.Slots.{
  Slot, Desk, update_where, at_slot, claim, claim_open, claim_for_owners, release,
  set_passwords_hidden, rotate_password, set_locked, set_slot_auth, rotate_each, taken, has_token,
  is_vacant_at, given_back, may_hide, hide, with_password, unlocked_at, locked_at_slot, lock,
  unlock, in_room, without_password,
}
use puna.Roster.Slots.Calls.{SlotCall, desk_after, run_calls, All-update_where}

-- A slot has a claim link exactly while nobody holds it.
abbrev pub IsLinked : Slot → Type 0
IsLinked s = is_some s.claim_token ≡ is_none s.owner_id

-- The holder of a slot, by the table's key.
unfoldable pub owner_at : ℕ → ℕ → List Slot → Option ℕ
owner_at room n [] = none
owner_at room n (s ∷ slots) =
    let rest = owner_at room n slots in if at_slot room n s then s.owner_id else rest

-- An update keeps the holder if it keeps the owner of each row there that has one.
owner_at-update_where :
    (room n u : ℕ) (test : Slot → Bool) (change : Slot → Slot)
    → ((s : Slot) → at_slot room n (if test s then change s else s) ≡ at_slot room n s)
    → ((s : Slot)
        → IsLinked s
        → at_slot room n s ≡ true
        → s.owner_id ≡ some u
        → (if test s then change s else s).owner_id ≡ some u)
    → (slots : List Slot) → All IsLinked slots
    → owner_at room n slots ≡ some u
    → owner_at room n (update_where test change slots) ≡ some u
unfolding owner_at
owner_at-update_where room n u test change same keeps [] linked e = e
owner_at-update_where room n u test change same keeps (s ∷ slots) linked e =
    elim (Bool-cases (at_slot room n s)) [
      | inl here ↦ ground (arith, same s, keeps s)
      | inr other ↦
          ground
            (arith, same s, owner_at-update_where room n u test change same keeps slots linked.1)
    ]

-- What a call keeps of a table in which the slot `n` of the room is held by `u`.
abbrev pub Holds : ℕ → ℕ → ℕ → List Slot → Type 0
Holds room n u slots = All IsLinked slots × (owner_at room n slots ≡ some u)

update_where-Holds :
    (room n u : ℕ) (test : Slot → Bool) (change : Slot → Slot)
    → ((s : Slot) → IsLinked s → IsLinked (if test s then change s else s))
    → ((s : Slot) → at_slot room n (if test s then change s else s) ≡ at_slot room n s)
    → ((s : Slot)
        → IsLinked s
        → at_slot room n s ≡ true
        → s.owner_id ≡ some u
        → (if test s then change s else s).owner_id ≡ some u)
    → (slots : List Slot) → Holds room n u slots
    → Holds room n u (update_where test change slots)
update_where-Holds room n u test change links same keeps slots h = (
  All-update_where IsLinked test change links slots h.0,
  owner_at-update_where room n u test change same keeps slots h.0 h.1,
)

-- A claim takes only a slot that nobody holds.
taken-Holds :
    (room n u now user : ℕ) (test : Slot → Bool)
    → ((s : Slot) → IsLinked s → test s ≡ true → s.owner_id ≡ none)
    → (slots : List Slot) → Holds room n u slots
    → Holds room n u (update_where test (taken now user) slots)
taken-Holds room n u now user test vacant =
    update_where-Holds room n u test (taken now user) (λ s l. ground arith) (λ s. ground arith)
      (λ s l at e. ground (arith, vacant s))

-- The columns that say whose a slot is.
abbrev whose : Slot → ℕ × ℕ × Option ℕ × Option String
whose s = (s.room_id, s.slot_number, s.owner_id, s.claim_token)

-- A change that leaves these columns.
quiet-Holds :
    (room n u : ℕ) (test : Slot → Bool) (change : Slot → Slot)
    → ((s : Slot) → whose (change s) ≡ whose s)
    → (slots : List Slot) → Holds room n u slots
    → Holds room n u (update_where test change slots)
quiet-Holds room n u test change quiet =
    update_where-Holds room n u test change (λ s l. ground (arith, quiet s))
      (λ s. ground (arith, quiet s)) (λ s l at e. ground (arith, quiet s))

claim-Holds :
    (room n u now : ℕ) (token : String) (user : ℕ) (slots : List Slot)
    → Holds room n u slots
    → Holds room n u (claim now token user slots).1
unfolding claim
claim-Holds room n u now token user =
    taken-Holds room n u now user (has_token token) (λ s l here. ground arith)

claim_open-Holds :
    (room n u now r k user : ℕ) (slots : List Slot)
    → Holds room n u slots
    → Holds room n u (claim_open now r k user slots).1
unfolding claim_open
claim_open-Holds room n u now r k user =
    taken-Holds room n u now user (is_vacant_at r k) (λ s l here. ground arith)

pub claim_for_owners-Holds :
    (room n u now r : ℕ) (assignments : List (ℕ × ℕ)) (slots : List Slot)
    → Holds room n u slots
    → Holds room n u (claim_for_owners now r assignments slots).1
unfolding claim_for_owners claim_open
claim_for_owners-Holds room n u now r [] slots h = h
claim_for_owners-Holds room n u now r ((k, user) ∷ assignments) slots h =
    claim_for_owners-Holds room n u now r assignments
      (update_where (is_vacant_at r k) (taken now user) slots)
      (claim_open-Holds room n u now r k user slots h)

release-Holds :
    (room n u r k : ℕ) (token : String)
    → (r == room && k == n) ≡ false
    → (slots : List Slot) → Holds room n u slots
    → Holds room n u (release r k token slots)
unfolding release
release-Holds room n u r k token elsewhere =
    update_where-Holds room n u (at_slot r k) (given_back token) (λ s l. ground arith)
      (λ s. ground arith) (λ s l at e. ground arith)

set_passwords_hidden-Holds :
    (room n u r : ℕ) (numbers : List ℕ) (hidden : Bool) (slots : List Slot)
    → Holds room n u slots
    → Holds room n u (set_passwords_hidden r numbers hidden slots).1
unfolding set_passwords_hidden
set_passwords_hidden-Holds room n u r [] hidden slots h = h
set_passwords_hidden-Holds room n u r (k ∷ numbers) hidden slots h =
    update_where-Holds room n u (may_hide r (k ∷ numbers) hidden) (hide hidden)
      (λ s l. ground arith) (λ s. ground arith) (λ s l at e. ground arith) slots h

rotate_password-Holds :
    (room n u r k : ℕ) (password : String) (slots : List Slot)
    → Holds room n u slots
    → Holds room n u (rotate_password r k password slots).1
unfolding rotate_password
rotate_password-Holds room n u r k password =
    quiet-Holds room n u (at_slot r k) (with_password password) (λ s. refl)

set_locked-Holds :
    (room n u now r k : ℕ) (locked : Bool) (by : ℕ) (slots : List Slot)
    → Holds room n u slots
    → Holds room n u (set_locked now r k locked by slots).1
unfolding set_locked
set_locked-Holds room n u now r k true by =
    quiet-Holds room n u (unlocked_at r k) (lock now by) (λ s. refl)
set_locked-Holds room n u now r k false by =
    quiet-Holds room n u (locked_at_slot r k) unlock (λ s. refl)

rotate_each-Holds :
    (room n u r : ℕ) (drawn : ℕ → String) (entries slots : List Slot)
    → Holds room n u slots
    → Holds room n u (rotate_each r drawn entries slots)
unfolding rotate_each
rotate_each-Holds room n u r drawn [] slots h = h
rotate_each-Holds room n u r drawn (entry ∷ entries) slots h =
    rotate_each-Holds room n u r drawn entries
      (rotate_password r entry.slot_number (drawn entry.slot_number) slots).1
      (rotate_password-Holds room n u r entry.slot_number (drawn entry.slot_number) slots h)

cleared-Holds :
    (room n u r : ℕ) (slots : List Slot)
    → Holds room n u slots
    → Holds room n u (update_where (in_room r) without_password slots)
cleared-Holds room n u r = quiet-Holds room n u (in_room r) without_password (λ s. refl)

set_slot_auth-Holds :
    (room n u : ℕ) (mode : SlotAuth) (hidden : Bool) (password : String) (drawn : ℕ → String)
    (d : Desk)
    → Holds room n u d.slots
    → Holds room n u (set_slot_auth mode hidden password drawn d).slots
unfolding set_slot_auth
set_slot_auth-Holds room n u SlotAuth.per_slot hidden password drawn d h =
    quiet-Holds room n u (in_room d.room_id) (hide hidden) (λ s. refl)
      (rotate_each d.room_id drawn (keep (in_room d.room_id) d.slots) d.slots)
      (rotate_each-Holds room n u d.room_id drawn (keep (in_room d.room_id) d.slots) d.slots h)
set_slot_auth-Holds room n u SlotAuth.none hidden password drawn d h =
    cleared-Holds room n u d.room_id d.slots h
set_slot_auth-Holds room n u SlotAuth.room hidden password drawn d h =
    cleared-Holds room n u d.room_id d.slots h

-- The call does not give the slot `n` of the room back.
abbrev pub Spares : ℕ → ℕ → SlotCall → Type 0
Spares room n (SlotCall.release r k token) = (r == room && k == n) ≡ false
Spares room n _ = Unit

desk_after-Holds :
    (room n u : ℕ) (call : SlotCall) (d : Desk)
    → Spares room n call
    → Holds room n u d.slots
    → Holds room n u (desk_after call d).slots
desk_after-Holds room n u (SlotCall.claim now token user) d spares =
    claim-Holds room n u now token user d.slots
desk_after-Holds room n u (SlotCall.claim_open now r k user) d spares =
    claim_open-Holds room n u now r k user d.slots
desk_after-Holds room n u (SlotCall.claim_for_owners now r assignments) d spares =
    claim_for_owners-Holds room n u now r assignments d.slots
desk_after-Holds room n u (SlotCall.release r k token) d spares =
    release-Holds room n u r k token spares d.slots
desk_after-Holds room n u (SlotCall.set_passwords_hidden r numbers hidden) d spares =
    set_passwords_hidden-Holds room n u r numbers hidden d.slots
desk_after-Holds room n u (SlotCall.rotate_password r k password) d spares =
    rotate_password-Holds room n u r k password d.slots
desk_after-Holds room n u (SlotCall.set_locked now r k locked by) d spares =
    set_locked-Holds room n u now r k locked by d.slots
desk_after-Holds room n u (SlotCall.set_slot_auth mode hidden password drawn) d spares =
    set_slot_auth-Holds room n u mode hidden password drawn d

-- Whoever holds a slot holds it after any calls that do not give this slot back: no claim by a link, of
-- an open slot or for the accounts of a lobby takes it away, as long as each slot of the table had a
-- claim link exactly while nobody held it; and the table then still is such a one.
pub run_calls-Holds :
    (room n u : ℕ) (calls : List SlotCall) (d : Desk)
    → All IsLinked d.slots
    → owner_at room n d.slots ≡ some u
    → All (Spares room n) calls
    → All IsLinked (run_calls calls d).slots × (owner_at room n (run_calls calls d).slots ≡ some u)
unfolding run_calls
run_calls-Holds room n u [] d linked held spares = (linked, held)
run_calls-Holds room n u (call ∷ calls) d linked held spares =
    let h = desk_after-Holds room n u call d spares.0 (linked, held) in
    run_calls-Holds room n u calls (desk_after call d) h.0 h.1 spares.1
