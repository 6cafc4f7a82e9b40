-- ===== src/Roster/Members/Calls.antt =====
-- The calls of the web tier on a roster, one after another.
use puna.Common.{ℕ, Bool, Option, String, List, [], ◌∷◌}
use puna.Roster.Role.{RoomRole}
use puna.Roster.Members.{Store, Reply, Fault}
use puna.Roster.Members

pub data RosterCall : Type 0 where
  set_role : Bool → ℕ → ℕ → RoomRole → RosterCall
  remove : Bool → ℕ → ℕ → RosterCall
  create_invite : Bool → String → ℕ → RoomRole → Option ℕ → Option ℕ → RosterCall
  revoke_invite : Bool → ℕ → String → RosterCall
  redeem_invite : Option Fault → ℕ → String → ℕ → RosterCall

abbrev pub after : RosterCall → Store → Store
after (RosterCall.set_role down room user role) s = (Members.set_role down room user role s).1
after (RosterCall.remove down room user) s = (Members.remove down room user s).1
after (RosterCall.create_invite down token room role expires_at uses) s =
    (Members.create_invite down token room role expires_at uses s).1
after (RosterCall.revoke_invite down room token) s = (Members.revoke_invite down room token s).1
after (RosterCall.redeem_invite fault now token user) s =
    (Members.redeem_invite fault now token user s).1

unfoldable pub run_calls : List RosterCall → Store → Store
run_calls [] s = s
run_calls (c ∷ calls) s = run_calls calls (after c s)
