-- ===== src/Plan/View.antt =====
-- What the planner reads of a room and of the cluster: `RoomView` of puna-orchestrator/src/plan.rs,
-- `RoomDeployment` and `ClusterSnapshot` of puna-orchestrator/src/cluster/mod.rs.
-- A room id is the number that its 16 bytes spell, so the derived order is the order of numbers.
-- An `i32` is an integer; `not_ready_sweeps`, which the database counts up from 0, is a natural
-- number below 2^31.
use puna.Common.{
  ℕ, Bool, true, false, ◌||◌, Option, none, some, List, String, if◌then◌else◌, same_number,
  find_first, ℤ, pos, negsuc, longer_than,
}
use puna.Model.RoomState.{RoomState}
use puna.Model.DesiredState.{DesiredState}

pub record RoomView : Type 0 where
  pub id : ℕ
  pub lock_key : ℤ
  pub state : RoomState
  pub desired : DesiredState
  pub spec_hash : Option String
  pub desired_spec_hash : Option String
  pub state_changed_at : ℕ
  pub retry_after : Option ℕ
  pub not_ready_sweeps : ℕ
  pub redeploy_requested_at : Option ℕ
  pub idle_since : Option ℕ
  pub pinned : Bool

pub record RoomDeployment : Type 0 where
  pub name : String
  pub uid : String
  pub room_id : Option ℕ
  pub spec_hash : Option String
  pub image : Option String
  pub replicas : ℤ
  pub ready_replicas : ℤ
  pub created_at : ℕ
  pub deleting : Bool

-- The planner reads the deployments alone; services and secrets are the sweep's.
pub record ClusterSnapshot : Type 0 where
  pub deployments : List RoomDeployment

unfoldable pub deployment : ClusterSnapshot → ℕ → Option RoomDeployment
deployment cluster room = find_first (λ d. same_number d.room_id (some room)) cluster.deployments

-- `idle_timeout <= Duration::zero()`.
abbrev pub is_not_positive : ℤ → Bool
is_not_positive (pos d) = elim d [ ℕ.zero ↦ true | _ ↦ false ]
is_not_positive (negsuc d) = true

unfoldable pub should_reap : RoomView → ℕ → ℤ → Bool
should_reap room now idle_timeout =
    if is_not_positive idle_timeout || room.pinned
    then false
    else elim room.idle_since [ none ↦ false | some since ↦ longer_than now since idle_timeout ]
