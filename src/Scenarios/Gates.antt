-- ===== src/Scenarios/Gates.antt =====
-- A gate with a list, an account on it, and an administrator who is restricted.
use puna.Common.{◌≡◌, ◌↔◌, refl, true, false, none, some, ◌==◌, if◌then◌else◌}
use puna.Gate.{RoomSource, Grant, Db, Answer, Denial, standing, status_of, may_create}
use puna.Gate.Standing.{InGoodStanding, Admits, standing_iff}

abbrev db : Db
db = record {
  users = λ user. some (if user == 1 then some ("restricted", none) else some ("active", none));
  settings = λ key. some (some "allowlist");
  allowlist = λ user. some (user == 2);
}

restricted_admin : standing db RoomSource.direct 1 true ≡ Answer.denied (Denial.restricted none)
unfolding standing status_of may_create
restricted_admin = refl

standing_iff_example :
    (standing db RoomSource.direct 2 false ≡ Answer.granted Grant.allowlisted)
    ↔ (InGoodStanding db 2 × Admits db RoomSource.direct 2 false Grant.allowlisted)
standing_iff_example = standing_iff db RoomSource.direct 2 false Grant.allowlisted
