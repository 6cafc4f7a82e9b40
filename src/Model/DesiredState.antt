-- ===== src/Model/DesiredState.antt =====
-- What somebody asked of a room: `DesiredState` of puna-core/src/model/room.rs.
use puna.Common.{
  ◌≡◌, refl, String, Bool, true, false, Option, none, some, arith, str_eq, eq_iff, if◌then◌else◌,
  ◌↔◌,
}

pub data DesiredState : Type 0 where
  running stopped closed deleted : DesiredState

pub DesiredState-discrete : Discrete DesiredState
DesiredState-discrete = hlevel

unfoldable pub as_sql : DesiredState → String
as_sql DesiredState.running = "running"
as_sql DesiredState.stopped = "stopped"
as_sql DesiredState.closed = "closed"
as_sql DesiredState.deleted = "deleted"

unfoldable pub parse : String → Option DesiredState
parse raw =
    if str_eq raw "running"
    then some DesiredState.running
    else if str_eq raw "stopped"
    then some DesiredState.stopped
    else if str_eq raw "closed"
    then some DesiredState.closed
    else if str_eq raw "deleted"
    then some DesiredState.deleted
    else none

-- Whether the room is to be taken down and kept: stopped or closed.
abbrev pub is_at_rest : DesiredState → Bool
is_at_rest DesiredState.stopped = true
is_at_rest DesiredState.closed = true
is_at_rest _ = false

abbrev pub is_deleted : DesiredState → Bool
is_deleted DesiredState.deleted = true
is_deleted _ = false

abbrev pub is_running : DesiredState → Bool
is_running DesiredState.running = true
is_running _ = false

parse-as_sql : (s : DesiredState) → parse (as_sql s) ≡ some s
unfolding parse as_sql
parse-as_sql DesiredState.running = refl
parse-as_sql _ = refl

as_sql_of_parse : (raw : String) (s : DesiredState) → parse raw ≡ some s → as_sql s ≡ raw
unfolding parse as_sql
as_sql_of_parse raw s h =
    ground
      (arith, eq_iff raw "running", eq_iff raw "stopped", eq_iff raw "closed", eq_iff raw "deleted")

-- The text of a desired-state column reads back as a request exactly when it is its spelling.
pub parse_desired_iff : (raw : String) (s : DesiredState) → (parse raw ≡ some s) ↔ (raw ≡ as_sql s)
parse_desired_iff raw s = (λ h. ground (arith, as_sql_of_parse raw s h), λ e. rw e (parse-as_sql s))
