-- ===== src/Steps/View.antt =====
-- From a row to what the planner sees of it: `idle_since` and `load_views` of
-- puna-orchestrator/src/reconcile.rs. The `filter_map` of one row is `load_view`; the query of the
-- rows and the log lines are left out.
use puna.Common.{
  ℕ, ◌≤◌, ◌≡◌, Bool, true, Option, none, some, String, if◌then◌else◌, same_text, is_some, minutes,
  ltb, ◌+◌, same_text_iff, pos, longer_than, arith, max, List, [], ◌∷◌, ℤ,
}
use puna.Model.RoomState
use puna.Model.DesiredState
use puna.Plan.View.{RoomView, should_reap}
use puna.Steps.Row.{RoomRow}

-- The row as the query returns it: the two states are text.
pub record Fetched : Type 0 where
  pub row : RoomRow
  pub state : String
  pub desired_state : String

abbrev pub probe_fresh_for : ℤ
probe_fresh_for = pos (minutes 5)

-- `[a, b].into_iter().flatten().max()`.
abbrev pub later : Option ℕ → Option ℕ → Option ℕ
later none none = none
later none (some b) = some b
later (some a) none = some a
later (some a) (some b) = some (max a b)

unfoldable pub idle_since : RoomRow → ℕ → Option ℕ
idle_since row now = elim row.probed_at [
  | none ↦ none
  | some probed_at ↦
      if longer_than now probed_at probe_fresh_for
      then none
      else if same_text row.probe_kind (some "https")
      then later row.last_check_at row.started_at
      else none
]

-- One row of `load_views`: left out when a state is unknown.
unfoldable pub load_view : ℕ → Fetched → Option RoomView
load_view now fetched = elim (RoomState.parse fetched.state) [
  | none ↦ none
  | some state ↦ elim (DesiredState.parse fetched.desired_state) [
    | none ↦ none
    | some desired ↦ some (record {
      id = fetched.row.id;
      lock_key = fetched.row.lock_key;
      state = state;
      desired = desired;
      spec_hash = fetched.row.spec_hash;
      desired_spec_hash = none;
      state_changed_at = fetched.row.state_changed_at;
      retry_after = fetched.row.retry_after;
      not_ready_sweeps = fetched.row.not_ready_sweeps;
      redeploy_requested_at = fetched.row.redeploy_requested_at;
      idle_since = idle_since fetched.row now;
      pinned = is_some fetched.row.pinned_at;
    })
  ]
]

unfoldable pub load_views : ℕ → List Fetched → List RoomView
load_views now [] = []
load_views now (fetched ∷ rest) = elim (load_view now fetched) [
  | none ↦ load_views now rest
  | some view ↦ view ∷ load_views now rest
]

-- A moment that is unknown, or more than d ago.
abbrev pub is_over : Option ℕ → ℕ → ℕ → Bool
is_over none now d = true
is_over (some t) now d = ltb (t + d) now

-- A room whose row the reaper acts on, with a timeout of d, is not pinned, was probed over HTTPS no
-- more than five minutes ago, and both its start and its last check, where known, are more than
-- d ago: a room is never reaped sooner than d after it came up.
pub load_view-should_reap :
    (fetched : Fetched) (view : RoomView) (now d : ℕ)
    → load_view now fetched ≡ some view
    → should_reap view now (pos d) ≡ true
    → ((t : ℕ) × (fetched.row.probed_at ≡ some t) × (now ≤ t + minutes 5))
      × (fetched.row.pinned_at ≡ none)
      × (fetched.row.probe_kind ≡ some "https")
      × (is_over fetched.row.started_at now d ≡ true)
      × (is_over fetched.row.last_check_at now d ≡ true)
unfolding load_view idle_since should_reap
load_view-should_reap fetched view now d h reap =
    ground (arith, same_text_iff fetched.row.probe_kind (some "https"))
