-- ===== src/Roster/Members/Kept.antt =====
-- What the calls on a roster keep of it: the trigger's room with an organizer, and the roles that a
-- redemption finds.
use puna.Common.{
  ℕ, ◌+◌, ◌<◌, ◌≡◌, Bool, true, false, Option, none, some, String, List, [], ◌∷◌, if◌then◌else◌,
  arith, inl, inr, Option-cases,
}
use puna.Roster.Role.{RoomRole, greatest}
use puna.Roster.Members.{
  MemberRow, InviteRow, Store, Fault, runs, organizers, find_member, put_role, delete_member,
  forbidden, upsert_role, set_role, remove, create_invite, revoke_invite, redeem_invite,
  find_invite, consume, grant,
}
use puna.Roster.Members.Calls.{RosterCall, after, run_calls}

abbrev one_if : Bool → ℕ
one_if b = if b then 1 else 0

organizers-delete :
    (r room user : ℕ) (members : List MemberRow) (old : MemberRow)
    → find_member room user members ≡ some old
    → organizers r (delete_member room user members) + one_if (runs r old) ≡ organizers r members
unfolding organizers find_member delete_member
organizers-delete r room user [] old e = ground arith
organizers-delete r room user (m ∷ members) old e =
    ground (arith, organizers-delete r room user members old)

organizers-put :
    (r room user : ℕ) (role : RoomRole) (members : List MemberRow) (old : MemberRow)
    → find_member room user members ≡ some old
    → organizers r (put_role room user role members) + one_if (runs r old)
      ≡ organizers r members + one_if (runs r (record old { role = role }))
unfolding organizers find_member put_role
organizers-put r room user role [] old e = ground arith
organizers-put r room user role (m ∷ members) old e =
    ground (arith, organizers-put r room user role members old)

-- A change that the trigger lets through leaves each room an organizer that had one.
remove-organized :
    (r room user : ℕ) (members : List MemberRow) (old : MemberRow)
    → find_member room user members ≡ some old
    → forbidden members old none ≡ false
    → 0 < organizers r members
    → 0 < organizers r (delete_member room user members)
unfolding forbidden
remove-organized r room user members old e free h =
    ground (arith, organizers-delete r room user members old e)

put-organized :
    (r room user : ℕ) (role : RoomRole) (members : List MemberRow) (old : MemberRow)
    → find_member room user members ≡ some old
    → forbidden members old (some role) ≡ false
    → 0 < organizers r members
    → 0 < organizers r (put_role room user role members)
unfolding forbidden
put-organized r room user RoomRole.helper members old e free h =
    ground (arith, organizers-put r room user RoomRole.helper members old e)
put-organized r room user RoomRole.organizer members old e free h =
    ground (arith, organizers-put r room user RoomRole.organizer members old e)

cons-organized :
    (r : ℕ) (m : MemberRow) (members : List MemberRow)
    → 0 < organizers r members
    → 0 < organizers r (m ∷ members)
unfolding organizers
cons-organized r m members h = ground arith

upsert_role-organized :
    (r room user : ℕ) (role : RoomRole) (merge : RoomRole → RoomRole)
    (members after : List MemberRow)
    → upsert_role room user role merge members ≡ some after
    → 0 < organizers r members
    → 0 < organizers r after
unfolding upsert_role
upsert_role-organized r room user role merge members after e h =
    elim (Option-cases (find_member room user members)) [
      | inl missing ↦
          ground (
            arith,
            cons-organized r (record { room_id = room; user_id = user; role = role }) members,
          )
      | inr (old, found) ↦
          ground (arith, put-organized r room user (merge old.role) members old found)
    ]

set_role-organized :
    (r : ℕ) (down : Bool) (room user : ℕ) (role : RoomRole) (s : Store)
    → 0 < organizers r s.members
    → 0 < organizers r (set_role down room user role s).1.members
unfolding set_role
set_role-organized r true room user role s h = h
set_role-organized r false room user role s h =
    elim (Option-cases (upsert_role room user role (λ _. role) s.members)) [
      | inl refused ↦ rw (refused, set_role) h
      | inr (members, e) ↦
          rw (e, set_role) (upsert_role-organized r room user role _ s.members members e h)
    ]

remove_call-organized :
    (r : ℕ) (down : Bool) (room user : ℕ) (s : Store)
    → 0 < organizers r s.members
    → 0 < organizers r (remove down room user s).1.members
unfolding remove
remove_call-organized r true room user s h = h
remove_call-organized r false room user s h =
    elim (Option-cases (find_member room user s.members)) [
      | inl missing ↦ rw (missing, remove) h
      | inr (old, found) ↦ ground (arith, remove-organized r room user s.members old found)
    ]

grant-organized :
    (r : ℕ) (fault : Option Fault) (user : ℕ) (i : InviteRow) (invites : List InviteRow) (s : Store)
    → 0 < organizers r s.members
    → 0 < organizers r (grant fault user i invites s).1.members
unfolding grant
grant-organized r (some Fault.at_grant) user i invites s h = h
grant-organized r fault user i invites s h =
    elim (Option-cases
      (upsert_role i.room_id user i.role (λ held. greatest held i.role) s.members)) [
        | inl refused ↦ rw (refused, grant) h
        | inr (members, e) ↦
            rw (e, grant) (upsert_role-organized r i.room_id user i.role _ s.members members e h)
      ]

redeem_invite-organized :
    (r : ℕ) (fault : Option Fault) (now : ℕ) (token : String) (user : ℕ) (s : Store)
    → 0 < organizers r s.members
    → 0 < organizers r (redeem_invite fault now token user s).1.members
unfolding redeem_invite
redeem_invite-organized r (some Fault.at_consume) now token user s h = h
redeem_invite-organized r fault now token user s h =
    elim (Option-cases (find_invite token s.invites)) [
      | inl missing ↦ rw (missing, redeem_invite) h
      | inr (i, found) ↦ ground (arith, grant-organized r fault user i (consume token s.invites) s)
    ]

create_invite-members :
    (down : Bool) (token : String) (room : ℕ) (role : RoomRole) (expires_at uses : Option ℕ)
    (s : Store)
    → (create_invite down token room role expires_at uses s).1.members ≡ s.members
unfolding create_invite
create_invite-members down token room role expires_at uses s = ground arith

revoke_invite-members :
    (down : Bool) (room : ℕ) (token : String) (s : Store)
    → (revoke_invite down room token s).1.members ≡ s.members
unfolding revoke_invite
revoke_invite-members down room token s = ground arith

after-organized :
    (r : ℕ) (call : RosterCall) (s : Store)
    → 0 < organizers r s.members
    → 0 < organizers r (after call s).members
after-organized r (RosterCall.set_role down room user role) s h =
    set_role-organized r down room user role s h
after-organized r (RosterCall.remove down room user) s h =
    remove_call-organized r down room user s h
after-organized r (RosterCall.create_invite down token room role expires_at uses) s h =
    rw (create_invite-members down token room role expires_at uses s) h
after-organized r (RosterCall.revoke_invite down room token) s h =
    rw (revoke_invite-members down room token s) h
after-organized r (RosterCall.redeem_invite fault now token user) s h =
    redeem_invite-organized r fault now token user s h

-- Whatever is asked of the rosters, one call after another, and whichever statements fail, a room that
-- has an organizer has one afterwards.
pub run_calls-organized :
    (r : ℕ) (calls : List RosterCall) (s : Store)
    → 0 < organizers r s.members
    → 0 < organizers r (run_calls calls s).members
unfolding run_calls
run_calls-organized r [] s h = h
run_calls-organized r (call ∷ calls) s h =
    run_calls-organized r calls (after call s) (after-organized r call s h)
