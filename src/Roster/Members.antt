-- ===== src/Roster/Members.antt =====
-- The staff of rooms and the invitations to it: puna-core/src/model/member.rs over the tables
-- `room_members` and `room_invites`, with the trigger that keeps an organizer in each room
-- (puna-core/migrations/2026-08-17-000000_initial/up.sql). The room of a member has its row: to delete a
-- room is not modelled. Any statement may fail at the database, as `down` says of it.
pub mod Calls
pub mod Kept
pub mod Spent
pub mod Raised
use puna.Common.{
  ℕ, suc, zero, ◌-◌, Bool, true, false, not, Option, none, some, String, List, [], ◌∷◌,
  if◌then◌else◌, str_eq, ◌&&◌, ◌==◌, ltb, leb, count_if, any_of, is_some, is_none,
}
use mathlib.Core.Option
use puna.Roster.Role.{RoomRole, as_sql, parse, greatest, is_organizer}

pub record MemberRow : Type 0 where
  pub room_id : ℕ
  pub user_id : ℕ
  pub role : RoomRole

pub record InviteRow : Type 0 where
  pub token : String
  pub room_id : ℕ
  pub role : RoomRole
  pub expires_at : Option ℕ
  pub uses_remaining : Option ℕ

pub record Store : Type 0 where
  pub members : List MemberRow
  pub invites : List InviteRow

pub data MemberError : Type 0 where
  last_organizer invite_spent no_such_invite database : MemberError

pub data Reply (A : Type 0) : Type 0 where
  ok : A → Reply A
  err : MemberError → Reply A

abbrev pub is_member : ℕ → ℕ → MemberRow → Bool
is_member room user m = m.room_id == room && m.user_id == user

abbrev pub runs : ℕ → MemberRow → Bool
runs room m = m.room_id == room && is_organizer m.role

unfoldable pub organizers : ℕ → List MemberRow → ℕ
organizers room members = count_if (runs room) members

-- The row's role, of a table whose key is the room and the user.
unfoldable pub role_in : ℕ → ℕ → List MemberRow → Option RoomRole
role_in room user [] = none
role_in room user (m ∷ members) =
    let rest = role_in room user members in if is_member room user m then some m.role else rest

-- `forbid_removing_last_organizer`, before a row's change to `after` (`none` is its deletion): the row
-- stays if it was the room's only organizer and is one no longer.
unfoldable pub forbidden : List MemberRow → MemberRow → Option RoomRole → Bool
unfolding organizers
forbidden members old (some RoomRole.organizer) = false
forbidden members old after = is_organizer old.role && leb (organizers old.room_id members) 1

-- `ON CONFLICT DO UPDATE SET role`: the conflicting row, and the table with the role put in.
unfoldable pub find_member : ℕ → ℕ → List MemberRow → Option MemberRow
find_member room user [] = none
find_member room user (m ∷ members) =
    let rest = find_member room user members in if is_member room user m then some m else rest

unfoldable pub put_role : ℕ → ℕ → RoomRole → List MemberRow → List MemberRow
put_role room user role [] = []
put_role room user role (m ∷ members) =
    let rest = put_role room user role members in
    if is_member room user m then record m { role = role } ∷ members else m ∷ rest

unfoldable pub delete_member : ℕ → ℕ → List MemberRow → List MemberRow
delete_member room user [] = []
delete_member room user (m ∷ members) =
    let rest = delete_member room user members in
    if is_member room user m then members else m ∷ rest

-- The upsert of `set_role` and of `redeem_invite`, which differ in the role that a row in the way gets.
unfoldable pub upsert_role :
    ℕ → ℕ → RoomRole → (RoomRole → RoomRole) → List MemberRow → Option (List MemberRow)
unfolding find_member put_role forbidden
upsert_role room user role merge members = elim (find_member room user members) [
  | none ↦ some (record { room_id = room; user_id = user; role = role } ∷ members)
  | some old ↦
      if forbidden members old (some (merge old.role))
      then none
      else some (put_role room user (merge old.role) members)
]

unfoldable pub set_role : Bool → ℕ → ℕ → RoomRole → Store → Reply (Unit {0}) × Store
unfolding upsert_role
set_role true room user role s = (Reply.err MemberError.database, s)
set_role false room user role s = elim (upsert_role room user role (λ _. role) s.members) [
  | none ↦ (Reply.err MemberError.last_organizer, s)
  | some members ↦ (Reply.ok tt, record s { members = members })
]

unfoldable pub remove : Bool → ℕ → ℕ → Store → Reply Bool × Store
unfolding find_member forbidden delete_member
remove true room user s = (Reply.err MemberError.database, s)
remove false room user s = elim (find_member room user s.members) [
  | none ↦ (Reply.ok false, s)
  | some old ↦
      if forbidden s.members old none
      then (Reply.err MemberError.last_organizer, s)
      else (Reply.ok true, record s { members = delete_member room user s.members })
]

unfoldable pub find_invite : String → List InviteRow → Option InviteRow
find_invite token [] = none
find_invite token (i ∷ invites) =
    let rest = find_invite token invites in if str_eq i.token token then some i else rest

-- The token is drawn at random, and is the table's key.
unfoldable pub create_invite :
    Bool → String → ℕ → RoomRole → Option ℕ → Option ℕ → Store → Option String × Store
unfolding find_invite
create_invite true token room role expires_at uses s = (none, s)
create_invite false token room role expires_at uses s =
    if is_some (find_invite token s.invites) then (none, s) else (
      some token,
      record s {
        invites =
            record {
              token = token;
              room_id = room;
              role = role;
              expires_at = expires_at;
              uses_remaining = uses;
            }
            ∷ s.invites;
      },
    )

unfoldable pub delete_invite : ℕ → String → List InviteRow → List InviteRow
delete_invite room token [] = []
delete_invite room token (i ∷ invites) =
    let rest = delete_invite room token invites in
    if i.room_id == room && str_eq i.token token then rest else i ∷ rest

unfoldable pub revoke_invite : Bool → ℕ → String → Store → Option Bool × Store
unfolding delete_invite
revoke_invite true room token s = (none, s)
revoke_invite false room token s = (
  some (any_of (λ i. i.room_id == room && str_eq i.token token) s.invites),
  record s { invites = delete_invite room token s.invites },
)

-- The `WHERE` of the consuming `UPDATE` and of the offer's query.
abbrev pub is_open : ℕ → InviteRow → Bool
is_open now i =
    elim i.expires_at [ none ↦ true | some t ↦ ltb now t ]
    && elim i.uses_remaining [ none ↦ true | some n ↦ ltb 0 n ]

-- `uses_remaining - 1`, which is NULL of NULL.
unfoldable pub consume : String → List InviteRow → List InviteRow
consume token [] = []
consume token (i ∷ invites) =
    let rest = consume token invites in
    if str_eq i.token token
    then record i { uses_remaining = Option.map (λ n. n - 1) i.uses_remaining } ∷ invites
    else i ∷ rest

unfoldable pub offered_by_invite_token : ℕ → String → Store → Option (ℕ × RoomRole)
unfolding find_invite
offered_by_invite_token now token s = elim (find_invite token s.invites) [
  | none ↦ none
  | some i ↦ if is_open now i then some (i.room_id, i.role) else none
]

-- The statements of a redemption are no transaction: which of them fails is an argument.
pub data Fault : Type 0 where
  at_consume at_exists at_grant at_role : Fault

unfoldable pub grant :
    Option Fault → ℕ → InviteRow → List InviteRow → Store → Reply (ℕ × RoomRole) × Store
unfolding upsert_role role_in
grant (some Fault.at_grant) user i invites s =
    (Reply.err MemberError.database, record s { invites = invites })
grant fault user i invites s =
    elim (upsert_role i.room_id user i.role (λ held. greatest held i.role) s.members) [
      | none ↦ (Reply.err MemberError.database, record s { invites = invites })
      | some members ↦ (
        elim fault [
          | none ↦ elim (role_in i.room_id user members) [
            | none ↦ Reply.ok (i.room_id, i.role)
            | some held ↦ Reply.ok (i.room_id, held)
          ]
          | some f ↦ Reply.err MemberError.database
        ],
        record { members = members; invites = invites },
      )
    ]

-- What the query that tells the two refusals apart finds, unless it fails.
abbrev pub refusal : Option Fault → MemberError → Reply (ℕ × RoomRole)
refusal (some Fault.at_exists) e = Reply.err MemberError.database
refusal _ e = Reply.err e

unfoldable pub redeem_invite : Option Fault → ℕ → String → ℕ → Store → Reply (ℕ × RoomRole) × Store
unfolding find_invite consume grant
redeem_invite (some Fault.at_consume) now token user s = (Reply.err MemberError.database, s)
redeem_invite fault now token user s = elim (find_invite token s.invites) [
  | none ↦ (refusal fault MemberError.no_such_invite, s)
  | some i ↦
      if is_open now i
      then grant fault user i (consume token s.invites) s
      else (refusal fault MemberError.invite_spent, s)
]
