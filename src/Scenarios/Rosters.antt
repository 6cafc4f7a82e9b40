-- ===== src/Scenarios/Rosters.antt =====
-- A room with one organizer and an invitation of one use, and a slot that changes hands.
use puna.Common.{
  ℕ, ◌<◌, ◌≤◌, ◌≡◌, refl, true, false, not, none, some, List, [], ◌∷◌, arith, All, ◌||◌, is_some,
  same_number,
}
use puna.Model.SlotAuth.{SlotAuth}
use puna.Spec.Secret.{RoomSecrets}
use puna.Roster.Role.{RoomRole, role_le}
use puna.Roster.Members.{
  MemberRow, InviteRow, Store, Reply, MemberError, remove, redeem_invite, role_in, organizers,
  find_invite, is_open,
}
use puna.Roster.Members.Calls
use puna.Roster.Members.Calls.{RosterCall}
use puna.Roster.Members.Kept.{run_calls-organized}
use puna.Roster.Members.Spent.{redemptions, uses_left, redemptions-le-uses}
use puna.Roster.Members.Raised.{no_lower, redeem_invite-granted}
use puna.Roster.Slots.{Slot, SlotKind, Desk, GenerationSlot, claim, may_access}
use puna.Roster.Slots.Calls as SlotCalls
use puna.Roster.Slots.Calls.{SlotCall}
use puna.Roster.Slots.Held.{IsLinked, owner_at, run_calls-Holds}
use puna.Roster.Slots.Built.{IsBuilt, secret_of, created, run_calls-IsBuilt}
use puna.Roster.Slots.Access.{claim-may_access}

abbrev staff : List MemberRow
staff =
    record { room_id = 1; user_id = 10; role = RoomRole.organizer }
    ∷ record { room_id = 1; user_id = 11; role = RoomRole.helper }
    ∷ []

abbrev one_use : InviteRow
one_use = record {
  token = "inv";
  room_id = 1;
  role = RoomRole.organizer;
  expires_at = some 100;
  uses_remaining = some 1;
}

abbrev roster : Store
roster = record { members = staff; invites = one_use ∷ [] }

last_one_stays : remove false 1 10 roster ≡ (Reply.err MemberError.last_organizer, roster)
unfolding remove
last_one_stays = refl

-- The helper becomes an organizer by the link, so that the first one may go; the link is spent then.
abbrev handover : List RosterCall
handover =
    RosterCall.remove false 1 10
    ∷ RosterCall.redeem_invite none 50 "inv" 11
    ∷ RosterCall.remove false 1 10
    ∷ RosterCall.redeem_invite none 51 "inv" 12
    ∷ []

handed_over :
    (Calls.run_calls handover roster).members
    ≡ record { room_id = 1; user_id = 11; role = RoomRole.organizer } ∷ []
unfolding Calls.run_calls remove redeem_invite
handed_over = refl

run_calls-organized_example : 0 < organizers 1 (Calls.run_calls handover roster).members
unfolding organizers
run_calls-organized_example = run_calls-organized 1 handover roster (ground arith)

redemptions-le-uses_example : redemptions "inv" handover roster ≤ uses_left "inv" (one_use ∷ [])
redemptions-le-uses_example =
    redemptions-le-uses "inv" handover roster refl (tt, (tt, (tt, (tt, tt))))

redeem_invite-granted_example :
    ((i : InviteRow) × (find_invite "inv" (one_use ∷ []) ≡ some i)
      × (is_open 50 i ≡ true)
      × (i.room_id ≡ 1)
      × (role_le i.role RoomRole.organizer ≡ true))
    × (role_in 1 11 (redeem_invite none 50 "inv" 11 roster).1.members ≡ some RoomRole.organizer)
    × ((r u : ℕ)
        → no_lower
            (role_in r u staff)
            (role_in r u (redeem_invite none 50 "inv" 11 roster).1.members)
          ≡ true)
unfolding redeem_invite
redeem_invite-granted_example =
    redeem_invite-granted none 50 "inv" 11 roster 1 RoomRole.organizer refl

abbrev held_slot : Slot
held_slot = record {
  room_id = 1;
  slot_number = 1;
  player_name = "Ann";
  kind = SlotKind.player;
  password = none;
  password_hidden = false;
  owner_id = some 10;
  claim_token = none;
  claimed_at = some 5;
  locked_at = none;
  locked_by = none;
}

abbrev open_slot : Slot
open_slot = record held_slot {
  slot_number = 2;
  owner_id = none;
  claim_token = some "tok";
  claimed_at = none;
}

abbrev desk : Desk
desk = record {
  room_id = 1;
  slot_auth = SlotAuth.none;
  password = none;
  slots = held_slot ∷ open_slot ∷ [];
}

abbrev slot_calls : List SlotCall
slot_calls =
    SlotCall.claim 60 "tok" 11
    ∷ SlotCall.claim_open 61 1 1 12
    ∷ SlotCall.release 1 2 "tok2"
    ∷ SlotCall.set_slot_auth SlotAuth.per_slot true "room" (λ n. "pw")
    ∷ SlotCall.set_locked 62 1 1 true 10
    ∷ []

run_calls-Holds_example :
    All IsLinked (SlotCalls.run_calls slot_calls desk).slots
    × (owner_at 1 1 (SlotCalls.run_calls slot_calls desk).slots ≡ some 10)
unfolding owner_at
run_calls-Holds_example =
    run_calls-Holds 1 1 10 slot_calls desk (refl, (refl, tt)) refl
      (tt, (tt, (refl, (tt, (tt, tt)))))

claim-may_access_example :
    (may_access
        (record open_slot { owner_id = some 11; claim_token = none; claimed_at = some 60 })
        (some 12)
        none
        false
      ≡ same_number (some 12) (some 11))
    × ((claim 70 "tok" 12 (claim 60 "tok" 11 (held_slot ∷ open_slot ∷ [])).1).0 ≡ none)
unfolding claim
claim-may_access_example =
    claim-may_access 60 "tok" 11 (held_slot ∷ open_slot ∷ [])
      (record open_slot { owner_id = some 11; claim_token = none; claimed_at = some 60 }) (some 12)
      70 12 refl

abbrev first_entry : GenerationSlot
first_entry = record {
  slot_number = 1;
  player_name = "Ann";
  kind = SlotKind.player;
  password_drawn = "pw1";
  token_drawn = "tok1";
}

abbrev secrets : RoomSecrets
secrets = record { admin_token = "admin"; server_password = none }

run_calls-IsBuilt_example :
    IsBuilt (
      secret_of
        (λ m. "{}")
        secrets
        (SlotCalls.run_calls slot_calls
          (created 1 SlotAuth.room (some "pw") true (first_entry ∷ []) [])))
    × All
        (λ s. not s.password_hidden || is_some s.password ≡ true)
        (SlotCalls.run_calls slot_calls
          (created 1 SlotAuth.room (some "pw") true (first_entry ∷ []) [])).slots
run_calls-IsBuilt_example =
    run_calls-IsBuilt (λ m. "{}") secrets slot_calls 1 SlotAuth.room (some "pw") true first_entry []
      [] refl tt
