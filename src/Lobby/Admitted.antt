-- ===== src/Lobby/Admitted.antt =====
-- What an import may change, and at whose word.
use puna.Common.{
  ℕ, ◌≡◌, refl, Bool, true, false, Option, none, some, List, All, arith, Option-cases, Bool-cases,
  inl, inr, ◌⊎◌, keep,
}
use puna.Roster.Role.{RoomRole}
use puna.Roster.Members.{MemberRow, role_in}
use puna.Roster.Slots.{Slot, in_room}
use puna.Roster.Slots.Held.{IsLinked, owner_at, claim_for_owners-Holds}
use puna.Lobby.Names.{Text, LobbyRoom, author}
use puna.Lobby.Import.{Asked, Outcome, import_lobby, may_import, role_of_author, planned}

-- Who may import: an administrator, or anybody if the author of the lobby is an organizer of the room;
-- and the lobby can be read.
abbrev pub MayImport : Bool → ℕ → List MemberRow → Option LobbyRoom → Type 0
MayImport is_admin room members answer =
    (fetched : LobbyRoom) × (answer ≡ some fetched)
    × ((is_admin ≡ true)
        ⊎ ((a : ℕ) × (author fetched ≡ some a)
            × (role_in room a members ≡ some RoomRole.organizer)))

may_import-role :
    (is_admin : Bool) (room : ℕ) (members : List MemberRow) (who : Option ℕ)
    → may_import is_admin who (role_of_author room members who) ≡ true
    → (is_admin ≡ true)
      ⊎ ((a : ℕ) × (who ≡ some a) × (role_in room a members ≡ some RoomRole.organizer))
unfolding may_import
may_import-role true room members who e = inl refl
may_import-role false room members none e = cc
may_import-role false room members (some a) e = elim (Option-cases (role_in room a members)) [
  | inl none_held ↦ ground arith
  | inr (RoomRole.helper, held) ↦ ground arith
  | inr (RoomRole.organizer, held) ↦ inr (a, refl, held)
]

organizer-may_import :
    (is_admin : Bool) (room : ℕ) (members : List MemberRow) (who : Option ℕ)
    → (is_admin ≡ true)
      ⊎ ((a : ℕ) × (who ≡ some a) × (role_in room a members ≡ some RoomRole.organizer))
    → may_import is_admin who (role_of_author room members who) ≡ true
unfolding may_import
organizer-may_import true room members who h = refl
organizer-may_import false room members who (inl admin) = cc
organizer-may_import false room members none (inr (a, named, held)) = cc
organizer-may_import false room members (some b) (inr (a, named, held)) =
    let same : b ≡ a = cc in rw (same, held) refl

may-MayImport :
    (is_admin : Bool) (room : ℕ) (members : List MemberRow) (fetched : LobbyRoom)
    → may_import is_admin (author fetched) (role_of_author room members (author fetched)) ≡ true
    → MayImport is_admin room members (some fetched)
may-MayImport is_admin room members fetched may =
    (fetched, refl, may_import-role is_admin room members (author fetched) may)

refused-MayImport :
    (is_admin : Bool) (room : ℕ) (members : List MemberRow) (fetched : LobbyRoom)
    → may_import is_admin (author fetched) (role_of_author room members (author fetched)) ≡ false
    → ¬ MayImport is_admin room members (some fetched)
refused-MayImport is_admin room members fetched refused (lobby, e, who) =
    let same : fetched ≡ lobby = cc in
    let may : may_import is_admin (author fetched) (role_of_author room members (author fetched))
        ≡ true =
      rw same (organizer-may_import is_admin room members (author lobby) who) in
    cc

abbrev pub is_imported : Outcome → Bool
is_imported (Outcome.imported report) = true
is_imported _ = false

-- Somebody who may import, of a lobby that could be read, is exactly who is not refused: an
-- administrator, or anybody if the lobby's author is an organizer of the room. An import that is refused
-- changes no slot.
pub import_lobby-admitted :
    (t : Text) (asked : Asked) (r : ℕ) (is_admin : Bool) (members : List MemberRow)
    (slots : List Slot)
    → ((is_imported (import_lobby t asked r is_admin members slots).0 ≡ false)
        × ((import_lobby t asked r is_admin members slots).1 ≡ slots)
        × ¬ MayImport is_admin r members asked.fetched)
      ⊎ ((is_imported (import_lobby t asked r is_admin members slots).0 ≡ true)
          × MayImport is_admin r members asked.fetched)
unfolding import_lobby
import_lobby-admitted t asked r is_admin members slots = elim (Option-cases asked.fetched) [
  | inl nothing ↦ rw (nothing, import_lobby) (inl (refl, refl, λ (fetched, e, _). cc))
  | inr (fetched, e) ↦
      elim (Bool-cases
        (may_import is_admin (author fetched) (role_of_author r members (author fetched)))) [
          | inr refused ↦
              rw (e, import_lobby, refused)
                (inl (refl, refl, refused-MayImport is_admin r members fetched refused))
          | inl may ↦
              rw (e, import_lobby, may) (inr (refl, may-MayImport is_admin r members fetched may))
        ]
]

-- Whoever holds a slot of the table by the time the claims are written holds it after the import too,
-- provided that each slot of that table has a claim link exactly while nobody holds it; and so has each
-- slot afterwards. An import that is refused writes no claims, and leaves the table that it read.
pub import_lobby-Holds :
    (t : Text) (asked : Asked) (r : ℕ) (is_admin : Bool) (members : List MemberRow)
    (slots : List Slot) (room n u : ℕ)
    → All IsLinked (asked.meanwhile slots)
    → owner_at room n (asked.meanwhile slots) ≡ some u
    → ((is_imported (import_lobby t asked r is_admin members slots).0 ≡ false)
        × ((import_lobby t asked r is_admin members slots).1 ≡ slots))
      ⊎ ((is_imported (import_lobby t asked r is_admin members slots).0 ≡ true)
          × All IsLinked (import_lobby t asked r is_admin members slots).1
          × (owner_at room n (import_lobby t asked r is_admin members slots).1 ≡ some u))
unfolding import_lobby
import_lobby-Holds t asked r is_admin members slots room n u linked held =
    elim (Option-cases asked.fetched) [
      | inl nothing ↦ rw (nothing, import_lobby) (inl (refl, refl))
      | inr (fetched, e) ↦
          elim (Bool-cases
            (may_import is_admin (author fetched) (role_of_author r members (author fetched)))) [
              | inr refused ↦ rw (e, import_lobby, refused) (inl (refl, refl))
              | inl may ↦
                  let p = planned t asked (keep (in_room r) slots) fetched.yamls in
                  let (held', linked') =
                    claim_for_owners-Holds room n u asked.now r p.claims (asked.meanwhile slots)
                      (linked, held) in
                  rw (e, import_lobby, may) (inr (refl, held', linked'))
            ]
    ]
