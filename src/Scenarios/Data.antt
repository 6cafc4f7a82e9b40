-- ===== src/Scenarios/Data.antt =====
-- The rooms and Deployments of the scenarios.
use puna.Common.{ℕ, false, none, some, String, List, [], ◌∷◌, pos, negsuc, seconds}
use puna.Model.RoomState.{RoomState}
use puna.Model.DesiredState.{DesiredState}
use puna.Plan.View.{RoomView, RoomDeployment, ClusterSnapshot}

-- The moment of every pass below.
abbrev pub now : ℕ
now = seconds 10000

abbrev pub hour : ℕ
hour = seconds 3600

-- A running room that nobody has spoken in for more than an hour.
abbrev pub quiet : RoomView
quiet = record {
  id = 1;
  lock_key = negsuc 6;
  state = RoomState.running;
  desired = DesiredState.running;
  spec_hash = some "a";
  desired_spec_hash = none;
  state_changed_at = seconds 1000;
  retry_after = none;
  not_ready_sweeps = 0;
  redeploy_requested_at = none;
  idle_since = some (seconds 2000);
  pinned = false;
}

-- One that has been quiet for longer.
abbrev pub quieter : RoomView
quieter = record quiet { id = 2; idle_since = some (seconds 1500) }

abbrev pub busy : RoomView
busy = record quiet { id = 3; idle_since = some (seconds 9990) }

abbrev pub asked_late : RoomView
asked_late = record busy { id = 4; redeploy_requested_at = some (seconds 9000) }

abbrev pub asked_early : RoomView
asked_early = record busy { id = 5; redeploy_requested_at = some (seconds 8000) }

abbrev pub resting : RoomView
resting = record quiet { id = 6; state = RoomState.idle }

abbrev pub deployed : ℕ → String → ℕ → RoomDeployment
deployed id hash ready = record {
  name = "mw";
  uid = "u";
  room_id = some id;
  spec_hash = some hash;
  image = none;
  replicas = pos 1;
  ready_replicas = pos ready;
  created_at = 0;
  deleting = false;
}

abbrev pub rooms : List RoomView
rooms = quiet ∷ quieter ∷ asked_late ∷ asked_early ∷ resting ∷ []

abbrev pub cluster : ClusterSnapshot
cluster = record {
  deployments = deployed 1 "a" 1 ∷ deployed 2 "a" 1 ∷ deployed 4 "a" 1 ∷ deployed 5 "a" 1 ∷ [];
}
