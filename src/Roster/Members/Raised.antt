-- ===== src/Roster/Members/Raised.antt =====
-- What a redemption grants: a role that no longer falls, and that of the link at least.
use puna.Common.{
  ℕ, ◌≡◌, refl, Bool, true, false, Option, none, some, String, List, [], ◌∷◌, if◌then◌else◌, arith,
  ◌==◌, ◌&&◌, inl, inr, Option-cases,
}
use puna.Roster.Role.{RoomRole, greatest, role_le}
use puna.Roster.Members.{
  MemberRow, InviteRow, Store, Reply, Fault, find_member, put_role, forbidden, upsert_role,
  redeem_invite, find_invite, consume, role_in, grant, is_open,
}

-- Roles, with none below all of them.
abbrev pub no_lower : Option RoomRole → Option RoomRole → Bool
no_lower none later = true
no_lower (some r) none = false
no_lower (some r) (some later) = role_le r later

put_role-role_in :
    (room user r u : ℕ) (role : RoomRole) (members : List MemberRow) (old : MemberRow)
    → find_member room user members ≡ some old
    → role_in r u (put_role room user role members)
      ≡ (if r == room && u == user then some role else role_in r u members)
unfolding role_in find_member put_role
put_role-role_in room user r u role [] old e = ground arith
put_role-role_in room user r u role (m ∷ members) old e =
    ground (arith, put_role-role_in room user r u role members old)

find_member-role_in :
    (room user : ℕ) (members : List MemberRow) (old : MemberRow)
    → find_member room user members ≡ some old
    → role_in room user members ≡ some old.role
unfolding role_in find_member
find_member-role_in room user [] old e = ground arith
find_member-role_in room user (m ∷ members) old e =
    ground (arith, find_member-role_in room user members old)

role_in_missing :
    (room user : ℕ) (members : List MemberRow)
    → find_member room user members ≡ none
    → role_in room user members ≡ none
unfolding role_in find_member
role_in_missing room user [] e = ground arith
role_in_missing room user (m ∷ members) e = ground (arith, role_in_missing room user members)

no_lower_refl : (o : Option RoomRole) → no_lower o o ≡ true
no_lower_refl o = ground arith

role_le-greatest : (a b : RoomRole) → role_le a (greatest a b) ≡ true
role_le-greatest a b = ground arith

merged-role_in :
    (room user r u : ℕ) (role : RoomRole) (members : List MemberRow) (old : MemberRow)
    → find_member room user members ≡ some old
    → no_lower
        (role_in r u members)
        (role_in r u (put_role room user (greatest old.role role) members))
      ≡ true
merged-role_in room user r u role members old e = ground (
  arith,
  put_role-role_in room user r u (greatest old.role role) members old e,
  find_member-role_in room user members old e,
  no_lower_refl (role_in r u members),
  role_le-greatest old.role role,
)

forbidden-greatest :
    (members : List MemberRow) (old : MemberRow) (role : RoomRole)
    → forbidden members old (some (greatest old.role role)) ≡ false
unfolding forbidden
forbidden-greatest members old role = ground arith

-- What the upsert of a redemption leaves.
abbrev Raised : ℕ → ℕ → RoomRole → List MemberRow → List MemberRow → Type 0
Raised room user role members later =
    ((held : RoomRole) × (role_in room user later ≡ some held) × (role_le role held ≡ true))
    × ((r u : ℕ) → no_lower (role_in r u members) (role_in r u later) ≡ true)

cons-Raised :
    (room user : ℕ) (role : RoomRole) (members : List MemberRow)
    → find_member room user members ≡ none
    → Raised room user role members
        (record { room_id = room; user_id = user; role = role } ∷ members)
unfolding role_in
cons-Raised room user role members missing =
    ((role, ground arith, ground arith), λ r u. ground (arith, role_in_missing room user members))

put_role-Raised :
    (room user : ℕ) (role : RoomRole) (members : List MemberRow) (old : MemberRow)
    → find_member room user members ≡ some old
    → Raised room user role members (put_role room user (greatest old.role role) members)
put_role-Raised room user role members old found = (
  (
    greatest old.role role,
    ground (arith, put_role-role_in room user room user (greatest old.role role) members old found),
    ground arith,
  ),
  λ r u. merged-role_in room user r u role members old found,
)

upsert_role-Raised :
    (room user : ℕ) (role : RoomRole) (members : List MemberRow)
    → (later : List MemberRow) × (upsert_role room user role (λ held. greatest held role) members
        ≡ some later)
      × Raised room user role members later
unfolding upsert_role forbidden
upsert_role-Raised room user role members = elim (Option-cases (find_member room user members)) [
  | inl missing ↦ (
    record { room_id = room; user_id = user; role = role } ∷ members,
    rw (missing, upsert_role) refl,
    cons-Raised room user role members missing,
  )
  | inr (old, found) ↦ (
    put_role room user (greatest old.role role) members,
    rw (found, upsert_role) (rw (forbidden-greatest members old role) refl),
    put_role-Raised room user role members old found,
  )
]

grant-no_lower :
    (fault : Option Fault) (user : ℕ) (i : InviteRow) (invites : List InviteRow) (s : Store)
    (r u : ℕ)
    → no_lower (role_in r u s.members) (role_in r u (grant fault user i invites s).1.members) ≡ true
unfolding grant
grant-no_lower (some Fault.at_grant) user i invites s r u = no_lower_refl (role_in r u s.members)
grant-no_lower fault user i invites s r u =
    let (later, e, raised) = upsert_role-Raised i.room_id user i.role s.members in
    rw (e, grant) (raised.1 r u)

grant-held :
    (fault : Option Fault) (user : ℕ) (i : InviteRow) (invites : List InviteRow) (s : Store)
    (room : ℕ) (held : RoomRole)
    → (grant fault user i invites s).0 ≡ Reply.ok (room, held)
    → (i.room_id ≡ room)
      × (role_le i.role held ≡ true)
      × (role_in room user (grant fault user i invites s).1.members ≡ some held)
unfolding grant
grant-held fault user i invites s room held e =
    let (later, put, ((top, holds, offered), kept)) =
      upsert_role-Raised i.room_id user i.role s.members in
    ground arith

-- Nobody has a lower role after a redemption, whatever comes of it.
pub redeem_invite-no_lower :
    (fault : Option Fault) (now : ℕ) (token : String) (user : ℕ) (s : Store) (r u : ℕ)
    → no_lower
        (role_in r u s.members)
        (role_in r u (redeem_invite fault now token user s).1.members)
      ≡ true
unfolding redeem_invite
redeem_invite-no_lower (some Fault.at_consume) now token user s r u =
    no_lower_refl (role_in r u s.members)
redeem_invite-no_lower fault now token user s r u =
    elim (Option-cases (find_invite token s.invites)) [
      | inl missing ↦ rw (missing, redeem_invite) (no_lower_refl (role_in r u s.members))
      | inr (i, found) ↦ ground (
        arith,
        no_lower_refl (role_in r u s.members),
        grant-no_lower fault user i (consume token s.invites) s r u,
      )
    ]

-- A redemption that reports a room and a role found an open invitation of the token, to that room: the
-- role is the one that the user holds there afterwards, no lower than the one of the invitation; and
-- nobody has a lower role anywhere than before.
pub redeem_invite-granted :
    (fault : Option Fault) (now : ℕ) (token : String) (user : ℕ) (s : Store) (room : ℕ)
    (held : RoomRole)
    → (redeem_invite fault now token user s).0 ≡ Reply.ok (room, held)
    → ((i : InviteRow) × (find_invite token s.invites ≡ some i)
        × (is_open now i ≡ true)
        × (i.room_id ≡ room)
        × (role_le i.role held ≡ true))
      × (role_in room user (redeem_invite fault now token user s).1.members ≡ some held)
      × ((r u : ℕ)
          → no_lower
              (role_in r u s.members)
              (role_in r u (redeem_invite fault now token user s).1.members)
            ≡ true)
unfolding redeem_invite
redeem_invite-granted (some Fault.at_consume) now token user s room held e = cc
redeem_invite-granted fault now token user s room held e =
    elim (Option-cases (find_invite token s.invites)) [
      | inl missing ↦ ground arith
      | inr (i, found) ↦
          let held_lem = grant-held fault user i (consume token s.invites) s room held in
          (
            (i, found, ground arith, ground (arith, held_lem), ground (arith, held_lem)),
            ground (arith, held_lem),
            redeem_invite-no_lower fault now token user s,
          )
    ]
