-- ===== src/Roster/Slots.antt =====
-- The slots of rooms, who holds them and who may see them: the table `room_slots` and its statements in
-- puna-core/src/model/slot.rs, with `copy_slots` of puna-core/src/model/room.rs. Random values and the clock are
-- arguments. An update reaches every row that its WHERE names, and RETURNING hands the first of them back.
pub mod Calls
pub mod Held
pub mod Armed
pub mod Built
pub mod Access
use puna.Common.{
  ℕ, suc, ◌+◌, Bool, true, false, not, Option, none, some, String, List, [], ◌∷◌, ◌++◌, map,
  if◌then◌else◌, str_eq, ◌&&◌, ◌||◌, ◌==◌, keep, length, contains, is_some, is_none, same_text,
  same_number, find_first,
}
use puna.Model.SlotAuth.{SlotAuth}
use puna.Roster.Role.{RoomRole}

pub data SlotKind : Type 0 where
  player spectator : SlotKind

pub data PatchPolicy : Type 0 where
  open_to_all claimed : PatchPolicy

pub record Slot : Type 0 where
  pub room_id : ℕ
  pub slot_number : ℕ
  pub player_name : String
  pub kind : SlotKind
  pub password : Option String
  pub password_hidden : Bool
  pub owner_id : Option ℕ
  pub claim_token : Option String
  pub claimed_at : Option ℕ
  pub locked_at : Option ℕ
  pub locked_by : Option ℕ

-- `UPDATE … SET … WHERE`, the rows it returns, and the number of them.
abbrev pub update_where : (Slot → Bool) → (Slot → Slot) → List Slot → List Slot
update_where test change = map (λ s. if test s then change s else s)

abbrev pub returned : (Slot → Bool) → (Slot → Slot) → List Slot → List Slot
returned test change slots = map change (keep test slots)

abbrev pub first_of_rows : List Slot → Option Slot
first_of_rows [] = none
first_of_rows (s ∷ slots) = some s

abbrev pub at_slot : ℕ → ℕ → Slot → Bool
at_slot room n s = s.room_id == room && s.slot_number == n

-- The SET of the three claims.
abbrev pub taken : ℕ → ℕ → Slot → Slot
taken now user s = record s { owner_id = some user; claim_token = none; claimed_at = some now }

abbrev pub has_token : String → Slot → Bool
has_token token s = same_text s.claim_token (some token)

-- `none` is `ClaimError::NoSuchToken`.
unfoldable pub claim : ℕ → String → ℕ → List Slot → Option Slot × List Slot
claim now token user slots = (
  first_of_rows (returned (has_token token) (taken now user) slots),
  update_where (has_token token) (taken now user) slots,
)

abbrev pub is_vacant_at : ℕ → ℕ → Slot → Bool
is_vacant_at room n s = at_slot room n s && is_none s.owner_id

unfoldable pub claim_open : ℕ → ℕ → ℕ → ℕ → List Slot → Option Slot × List Slot
claim_open now room n user slots = (
  first_of_rows (returned (is_vacant_at room n) (taken now user) slots),
  update_where (is_vacant_at room n) (taken now user) slots,
)

unfoldable pub claim_for_owners : ℕ → ℕ → List (ℕ × ℕ) → List Slot → ℕ × List Slot
claim_for_owners now room [] slots = (0, slots)
claim_for_owners now room ((n, owner) ∷ assignments) slots =
    let (count, later) =
      claim_for_owners now room assignments
        (update_where (is_vacant_at room n) (taken now owner) slots) in
    (length (keep (is_vacant_at room n) slots) + count, later)

-- The `UPDATE` of `release`, with the token that it draws.
abbrev pub given_back : String → Slot → Slot
given_back token s = record s { owner_id = none; claimed_at = none; claim_token = some token }

unfoldable pub release : ℕ → ℕ → String → List Slot → List Slot
release room n token = update_where (at_slot room n) (given_back token)

abbrev pub may_hide : ℕ → List ℕ → Bool → Slot → Bool
may_hide room numbers hidden s =
    s.room_id == room
    && contains numbers s.slot_number
    && is_some s.password
    && (if hidden then not s.password_hidden else s.password_hidden)

abbrev pub hide : Bool → Slot → Slot
hide hidden s = record s { password_hidden = hidden }

unfoldable pub set_passwords_hidden : ℕ → List ℕ → Bool → List Slot → ℕ × List Slot
set_passwords_hidden room [] hidden slots = (0, slots)
set_passwords_hidden room (n ∷ numbers) hidden slots = (
  length (keep (may_hide room (n ∷ numbers) hidden) slots),
  update_where (may_hide room (n ∷ numbers) hidden) (hide hidden) slots,
)

abbrev pub with_password : String → Slot → Slot
with_password password s = record s { password = some password }

unfoldable pub rotate_password : ℕ → ℕ → String → List Slot → String × List Slot
rotate_password room n password slots =
    (password, update_where (at_slot room n) (with_password password) slots)

abbrev pub unlocked_at : ℕ → ℕ → Slot → Bool
unlocked_at room n s = at_slot room n s && is_none s.locked_at

abbrev pub locked_at_slot : ℕ → ℕ → Slot → Bool
locked_at_slot room n s = at_slot room n s && is_some s.locked_at

abbrev pub lock : ℕ → ℕ → Slot → Slot
lock now by s = record s { locked_at = some now; locked_by = some by }

abbrev pub unlock : Slot → Slot
unlock s = record s { locked_at = none; locked_by = none }

abbrev pub any_row : List Slot → Bool
any_row [] = false
any_row (s ∷ slots) = true

unfoldable pub set_locked : ℕ → ℕ → ℕ → Bool → ℕ → List Slot → Bool × List Slot
set_locked now room n true by slots = (
  any_row (keep (unlocked_at room n) slots),
  update_where (unlocked_at room n) (lock now by) slots,
)
set_locked now room n false by slots = (
  any_row (keep (locked_at_slot room n) slots),
  update_where (locked_at_slot room n) unlock slots,
)

unfoldable pub may_access : Slot → Option ℕ → Option RoomRole → Bool → Bool
may_access s user role true = true
may_access s user (some role) false = true
may_access s (some user) none false = elim s.owner_id [ none ↦ false | some owner ↦ user == owner ]
may_access s none none false = false

unfoldable pub may_download_patch : PatchPolicy → Slot → Option ℕ → Option RoomRole → Bool → Bool
unfolding may_access
may_download_patch PatchPolicy.open_to_all s user role is_admin = true
may_download_patch PatchPolicy.claimed s user role is_admin = may_access s user role is_admin

-- A slot of the generation, with the password and the claim token that are drawn for it.
pub record GenerationSlot : Type 0 where
  pub slot_number : ℕ
  pub player_name : String
  pub kind : SlotKind
  pub password_drawn : String
  pub token_drawn : String

abbrev pub slot_password : SlotAuth → GenerationSlot → Option String
slot_password SlotAuth.per_slot entry = some entry.password_drawn
slot_password SlotAuth.none entry = none
slot_password SlotAuth.room entry = none

-- One row of `copy_slots`; the transaction holds all of them or none.
unfoldable pub copied : ℕ → SlotAuth → Bool → GenerationSlot → Slot
copied room slot_auth hide_passwords entry = record {
  room_id = room;
  slot_number = entry.slot_number;
  player_name = entry.player_name;
  kind = entry.kind;
  password = slot_password slot_auth entry;
  password_hidden = hide_passwords && is_some (slot_password slot_auth entry);
  owner_id = none;
  claim_token = some entry.token_drawn;
  claimed_at = none;
  locked_at = none;
  locked_by = none;
}

unfoldable pub copy_slots : ℕ → SlotAuth → Bool → List GenerationSlot → List Slot → List Slot
unfolding copied
copy_slots room slot_auth hide_passwords entries slots =
    map (copied room slot_auth hide_passwords) entries ++ slots

-- A room's columns that `set_slot_auth` of room.rs writes, with the table of slots.
pub record Desk : Type 0 where
  pub room_id : ℕ
  pub slot_auth : SlotAuth
  pub password : Option String
  pub slots : List Slot

abbrev pub in_room : ℕ → Slot → Bool
in_room room s = s.room_id == room

-- `for entry in slot::list`: each slot of the room gets a password of its own.
unfoldable pub rotate_each : ℕ → (ℕ → String) → List Slot → List Slot → List Slot
unfolding rotate_password
rotate_each room drawn [] slots = slots
rotate_each room drawn (entry ∷ entries) slots =
    rotate_each room drawn entries
      (rotate_password room entry.slot_number (drawn entry.slot_number) slots).1

abbrev pub without_password : Slot → Slot
without_password s = record s { password = none; password_hidden = false }

-- The transaction of `set_slot_auth`; `room_password` and `drawn` are the passwords that are minted.
unfoldable pub set_slot_auth : SlotAuth → Bool → String → (ℕ → String) → Desk → Desk
unfolding rotate_each
set_slot_auth SlotAuth.per_slot hide_passwords room_password drawn d = record d {
  slot_auth = SlotAuth.per_slot;
  password = none;
  slots =
      update_where (in_room d.room_id) (hide hide_passwords)
        (rotate_each d.room_id drawn (keep (in_room d.room_id) d.slots) d.slots);
}
set_slot_auth SlotAuth.none hide_passwords room_password drawn d = record d {
  slot_auth = SlotAuth.none;
  password = none;
  slots = update_where (in_room d.room_id) without_password d.slots;
}
set_slot_auth SlotAuth.room hide_passwords room_password drawn d = record d {
  slot_auth = SlotAuth.room;
  password = some room_password;
  slots = update_where (in_room d.room_id) without_password d.slots;
}
