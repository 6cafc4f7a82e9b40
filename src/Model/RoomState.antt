-- ===== src/Model/RoomState.antt =====
-- The observed state of a room: `RoomState` of puna-core/src/model/room.rs.
use puna.Common.{
  ℕ, ◌≡◌, refl, String, Bool, true, false, Option, none, some, arith, str_eq, eq_iff, if◌then◌else◌,
  ◌↔◌,
}

pub data RoomState : Type 0 where
  provisioning idle starting running degraded stopping failed deleting integrity_fault : RoomState

pub RoomState-discrete : Discrete RoomState
RoomState-discrete = hlevel

unfoldable pub as_sql : RoomState → String
as_sql RoomState.provisioning = "provisioning"
as_sql RoomState.idle = "idle"
as_sql RoomState.starting = "starting"
as_sql RoomState.running = "running"
as_sql RoomState.degraded = "degraded"
as_sql RoomState.stopping = "stopping"
as_sql RoomState.failed = "failed"
as_sql RoomState.deleting = "deleting"
as_sql RoomState.integrity_fault = "integrity_fault"

unfoldable pub parse : String → Option RoomState
parse raw =
    if str_eq raw "provisioning"
    then some RoomState.provisioning
    else if str_eq raw "idle"
    then some RoomState.idle
    else if str_eq raw "starting"
    then some RoomState.starting
    else if str_eq raw "running"
    then some RoomState.running
    else if str_eq raw "degraded"
    then some RoomState.degraded
    else if str_eq raw "stopping"
    then some RoomState.stopping
    else if str_eq raw "failed"
    then some RoomState.failed
    else if str_eq raw "deleting"
    then some RoomState.deleting
    else if str_eq raw "integrity_fault"
    then some RoomState.integrity_fault
    else none

-- The states in which a room serves players: the allocator never takes their port.
abbrev pub is_live : RoomState → Bool
is_live RoomState.starting = true
is_live RoomState.running = true
is_live RoomState.degraded = true
is_live _ = false

unfoldable pub listing_rank : RoomState → ℕ
listing_rank RoomState.running = 0
listing_rank RoomState.starting = 1
listing_rank RoomState.degraded = 1
listing_rank _ = 2

parse-as_sql : (s : RoomState) → parse (as_sql s) ≡ some s
unfolding parse as_sql
parse-as_sql RoomState.provisioning = refl
parse-as_sql _ = refl

as_sql_of_parse : (raw : String) (s : RoomState) → parse raw ≡ some s → as_sql s ≡ raw
unfolding parse as_sql
as_sql_of_parse raw s h = ground (
  arith,
  eq_iff raw "provisioning",
  eq_iff raw "idle",
  eq_iff raw "starting",
  eq_iff raw "running",
  eq_iff raw "degraded",
  eq_iff raw "stopping",
  eq_iff raw "failed",
  eq_iff raw "deleting",
  eq_iff raw "integrity_fault",
)

-- The text of a state column reads back as a state exactly when it is that state's spelling.
pub parse_state_iff : (raw : String) (s : RoomState) → (parse raw ≡ some s) ↔ (raw ≡ as_sql s)
parse_state_iff raw s = (λ h. ground (arith, as_sql_of_parse raw s h), λ e. rw e (parse-as_sql s))
