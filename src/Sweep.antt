-- ===== src/Sweep.antt =====
-- The removal of Deployments that no room stands behind: `collect_orphans` of
-- puna-orchestrator/src/sweep.rs, with the start of `run`, and what the sweeper remembers between
-- passes. A set of names is a list of them; the log lines are left out.
pub mod Strikes
use puna.Common.{
  ℕ, suc, ◌+◌, Bool, true, false, ◌&&◌, ◌||◌, not, Option, none, some, String, List, [], ◌∷◌,
  if◌then◌else◌, str_eq, leb, any_of, keep, seconds,
}
use puna.Plan.View.{RoomDeployment}

abbrev pub orphan_min_age : ℕ
orphan_min_age = seconds 120

-- A pass: the moment, the Deployments, the rooms if they could be read, and the names whose
-- Deployment the cluster fails to delete.
pub record Pass : Type 0 where
  pub now : ℕ
  pub deployments : List RoomDeployment
  pub known : Option (ℕ → Bool)
  pub fails : String → Bool

-- What a pass does: the deletions it asks for, in order, its two counts, and the names it remembers.
pub record Swept : Type 0 where
  pub removed : List String
  pub deleted : ℕ
  pub pending : ℕ
  pub seen_orphans : List String

-- `is_none_or(|room_id| !known.contains(&room_id))`.
abbrev pub is_orphan : (ℕ → Bool) → RoomDeployment → Bool
is_orphan known d = elim d.room_id [ none ↦ true | some room ↦ not (known room) ]

-- The age is at least the least age; a Deployment of the future has none.
abbrev pub old_enough : ℕ → RoomDeployment → Bool
old_enough now d = leb (d.created_at + orphan_min_age) now

abbrev pub contains_name : List String → String → Bool
contains_name names name = any_of (str_eq name) names

-- One Deployment of the loop, and the rest of it.
unfoldable pub visit : (String → Bool) → ℕ → List String → RoomDeployment → Swept → Swept
visit fails now previously d rest =
    if not (contains_name previously d.name) || not (old_enough now d)
    then record rest { pending = suc rest.pending; seen_orphans = d.name ∷ rest.seen_orphans }
    else if fails d.name
    then record rest { removed = d.name ∷ rest.removed; seen_orphans = d.name ∷ rest.seen_orphans }
    else record rest {
      removed = d.name ∷ rest.removed;
      deleted = suc rest.deleted;
      seen_orphans = d.name ∷ rest.seen_orphans;
    }

unfoldable pub visit_all : (String → Bool) → ℕ → List String → List RoomDeployment → Swept
unfolding visit
visit_all fails now previously [] = record {
  removed = [];
  deleted = 0;
  pending = 0;
  seen_orphans = [];
}
visit_all fails now previously (d ∷ orphans) =
    visit fails now previously d (visit_all fails now previously orphans)

unfoldable pub collect_orphans :
    (String → Bool) → ℕ → List RoomDeployment → (ℕ → Bool) → List String → Swept
unfolding visit_all
collect_orphans fails now deployments known previously =
    visit_all fails now previously (keep (is_orphan known) deployments)

-- The start of `run`: without the rooms nothing is done, and what was remembered stays.
unfoldable pub sweep : List String → Pass → Swept
unfolding collect_orphans
sweep previously pass = elim pass.known [
  | none ↦ record { removed = []; deleted = 0; pending = 0; seen_orphans = previously }
  | some known ↦ collect_orphans pass.fails pass.now pass.deployments known previously
]

-- What a new sweeper remembers after passes, the latest of which stands first.
unfoldable pub remembered : List Pass → List String
unfolding sweep
remembered [] = []
remembered (pass ∷ earlier) = (sweep (remembered earlier) pass).seen_orphans
