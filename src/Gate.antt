-- ===== src/Gate.antt =====
-- Who may open a room or upload a generation: puna-core/src/model/settings.rs, `UserStatus` and
-- `status_of` of puna-core/src/model/user.rs, and `standing` of puna-web/src/gate.rs. A query is told by
-- what it answers: `none` is an error of the database.
pub mod Standing
use puna.Common.{ℕ, Bool, true, false, Option, none, some, String, if◌then◌else◌, str_eq, ltb}

pub data RoomSource : Type 0 where
  direct lobby : RoomSource

unfoldable pub settings_key : RoomSource → String
settings_key RoomSource.direct = "room_creation.direct"
settings_key RoomSource.lobby = "room_creation.lobby"

pub data GateMode : Type 0 where
  disabled allowlist opened : GateMode

unfoldable pub parse_mode : String → Option GateMode
parse_mode raw =
    if str_eq raw "disabled"
    then some GateMode.disabled
    else if str_eq raw "allowlist"
    then some GateMode.allowlist
    else if str_eq raw "open"
    then some GateMode.opened
    else none

pub data Grant : Type 0 where
  admin allowlisted opened : Grant

pub data Refusal : Type 0 where
  disabled not_allowlisted : Refusal

pub data Decision : Type 0 where
  allowed : Grant → Decision
  refused : Refusal → Decision

pub data UserStatus : Type 0 where
  active restricted banned : UserStatus

unfoldable pub parse_status : String → Option UserStatus
parse_status raw =
    if str_eq raw "active"
    then some UserStatus.active
    else if str_eq raw "restricted"
    then some UserStatus.restricted
    else if str_eq raw "banned"
    then some UserStatus.banned
    else none

-- The derived order is that of the constructors.
abbrev rank : UserStatus → ℕ
rank UserStatus.active = 0
rank UserStatus.restricted = 1
rank UserStatus.banned = 2

unfoldable pub may_create : UserStatus → Bool
may_create status = ltb (rank status) (rank UserStatus.restricted)

unfoldable pub may_act : UserStatus → Bool
may_act status = ltb (rank status) (rank UserStatus.banned)

-- The answers of the queries: an account's row, a gate's row, and the allowlist.
pub record Db : Type 0 where
  pub users : ℕ → Option (Option (String × Option String))
  pub settings : String → Option (Option String)
  pub allowlist : ℕ → Option Bool

-- `UserStatus::parse(..).unwrap_or(UserStatus::Banned)`.
abbrev status_or_banned : Option UserStatus → UserStatus
status_or_banned none = UserStatus.banned
status_or_banned (some status) = status

unfoldable pub status_of : Db → ℕ → Option (Option (UserStatus × Option String))
unfolding parse_status
status_of db user = elim (db.users user) [
  | none ↦ none
  | some row ↦ elim row [
    | none ↦ some none
    | some (status, note) ↦ some (some (status_or_banned (parse_status status), note))
  ]
]

abbrev mode_or_disabled : Option GateMode → GateMode
mode_or_disabled none = GateMode.disabled
mode_or_disabled (some m) = m

-- A gate without a row, or with a mode that is not known, is disabled.
unfoldable pub mode : Db → String → Option GateMode
unfolding parse_mode
mode db key = elim (db.settings key) [
  | none ↦ none
  | some row ↦ elim row [
    | none ↦ some GateMode.disabled
    | some raw ↦ some (mode_or_disabled (parse_mode raw))
  ]
]

abbrev by_list : Bool → Decision
by_list true = Decision.allowed Grant.allowlisted
by_list false = Decision.refused Refusal.not_allowlisted

unfoldable pub by_mode : Db → ℕ → GateMode → Option Decision
by_mode db user GateMode.disabled = some (Decision.refused Refusal.disabled)
by_mode db user GateMode.opened = some (Decision.allowed Grant.opened)
by_mode db user GateMode.allowlist = elim (db.allowlist user) [
  | none ↦ none
  | some listed ↦ some (by_list listed)
]

unfoldable pub evaluate : Db → RoomSource → ℕ → Bool → Option Decision
evaluate db source user is_admin =
    if is_admin
    then some (Decision.allowed Grant.admin)
    else elim (mode db (settings_key source)) [ none ↦ none | some m ↦ by_mode db user m ]

pub data Denial : Type 0 where
  restricted : Option String → Denial
  gate : Refusal → Denial

-- What `standing` answers: a grant, a denial, or 503 Service Unavailable.
pub data Answer : Type 0 where
  granted : Grant → Answer
  denied : Denial → Answer
  unavailable : Answer

abbrev pub answer_of : Option Decision → Answer
answer_of none = Answer.unavailable
answer_of (some (Decision.allowed grant)) = Answer.granted grant
answer_of (some (Decision.refused refusal)) = Answer.denied (Denial.gate refusal)

unfoldable pub standing : Db → RoomSource → ℕ → Bool → Answer
standing db source user is_admin = elim (status_of db user) [
  | none ↦ Answer.unavailable
  | some row ↦ elim row [
    | none ↦ answer_of (evaluate db source user is_admin)
    | some (status, note) ↦
        if may_create status
        then answer_of (evaluate db source user is_admin)
        else Answer.denied (Denial.restricted note)
  ]
]
