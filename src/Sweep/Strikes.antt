-- ===== src/Sweep/Strikes.antt =====
-- Which Deployments the sweep of puna-orchestrator/src/sweep.rs removes.
use puna.Common.{
  ℕ, ◌+◌, Bool, true, false, ◌&&◌, none, some, String, List, [], ◌∷◌, ◌≡◌, refl, ap, ◌∙◌, str_eq,
  any_of, keep, arith, length, Option-cases, inl, inr, eq_iff,
}
use puna.Plan.View.{RoomDeployment}
use puna.Sweep.{
  Pass, is_orphan, old_enough, contains_name, visit_all, collect_orphans, sweep, remembered,
}

-- A Deployment of that name without a room.
abbrev pub orphaned : String → (ℕ → Bool) → List RoomDeployment → Bool
orphaned name known deployments = any_of (λ d. str_eq name d.name && is_orphan known d) deployments

-- One that is old enough as well.
abbrev pub old_orphan : String → (ℕ → Bool) → ℕ → List RoomDeployment → Bool
old_orphan name known now deployments =
    any_of (λ d. (str_eq name d.name && is_orphan known d) && old_enough now d) deployments

-- Whether the name was an orphan's at the last pass that could read the rooms.
unfoldable pub seen_before : String → List Pass → Bool
seen_before name [] = false
seen_before name (pass ∷ earlier) =
    let older = seen_before name earlier in
    elim pass.known [ none ↦ older | some known ↦ orphaned name known pass.deployments ]

-- The first strike is kept by name, so what was seen of a name serves each of its Deployments.
contains_name-same :
    (names : List String) (a b : String)
    → str_eq a b ≡ true
    → contains_name names b ≡ contains_name names a
contains_name-same names a b h = ground (arith, eq_iff a b)

module _ (fails : String → Bool) (now : ℕ) (previously : List String) (name : String) where
  visit_all-removed :
      (orphans : List RoomDeployment)
      → contains_name (visit_all fails now previously orphans).removed name ≡ (
          contains_name previously name
          && any_of (λ d. str_eq name d.name && old_enough now d) orphans)
  unfolding visit_all
  visit_all-removed [] = ground arith
  visit_all-removed (d ∷ orphans) =
      ground (arith, visit_all-removed orphans, contains_name-same previously name d.name)

  visit_all-seen_orphans :
      (orphans : List RoomDeployment)
      → contains_name (visit_all fails now previously orphans).seen_orphans name
        ≡ any_of (λ d. str_eq name d.name) orphans
  unfolding visit_all
  visit_all-seen_orphans [] = refl
  visit_all-seen_orphans (d ∷ orphans) = ground (arith, visit_all-seen_orphans orphans)

any_of-keep :
    (p q r : RoomDeployment → Bool) (ds : List RoomDeployment)
    → any_of (λ d. p d && r d) (keep q ds) ≡ any_of (λ d. (p d && q d) && r d) ds
any_of-keep p q r [] = refl
any_of-keep p q r (d ∷ ds) = ground (arith, any_of-keep p q r ds)

any_of-keep_and :
    (p q : RoomDeployment → Bool) (ds : List RoomDeployment)
    → any_of p (keep q ds) ≡ any_of (λ d. p d && q d) ds
any_of-keep_and p q [] = refl
any_of-keep_and p q (d ∷ ds) = ground (arith, any_of-keep_and p q ds)

-- Every orphan is counted: it waits, or its removal is asked for.
visit_all-counts :
    (fails : String → Bool) (now : ℕ) (previously : List String) (orphans : List RoomDeployment)
    → (visit_all fails now previously orphans).pending
        + length (visit_all fails now previously orphans).removed
      ≡ length orphans
unfolding visit_all
visit_all-counts fails now previously [] = refl
visit_all-counts fails now previously (d ∷ orphans) =
    ground (arith, visit_all-counts fails now previously orphans)

module _ (name : String) (known : ℕ → Bool) (pass : Pass) (previously : List String)
    (readable : pass.known ≡ some known) where
  sweep-collect :
      sweep previously pass ≡ collect_orphans pass.fails pass.now pass.deployments known previously
  unfolding sweep
  sweep-collect = rw readable

  sweep-seen_orphans :
      contains_name (sweep previously pass).seen_orphans name ≡ orphaned name known pass.deployments
  unfolding collect_orphans
  sweep-seen_orphans =
      ap (λ s. contains_name s.seen_orphans name) sweep-collect
      ∙ visit_all-seen_orphans pass.fails pass.now previously name
          (keep (is_orphan known) pass.deployments)
      ∙ any_of-keep_and (λ d. str_eq name d.name) (is_orphan known) pass.deployments

  sweep-old_orphan :
      contains_name (sweep previously pass).removed name
      ≡ (contains_name previously name && old_orphan name known pass.now pass.deployments)
  unfolding collect_orphans
  sweep-old_orphan =
      ap (λ s. contains_name s.removed name) sweep-collect
      ∙ visit_all-removed pass.fails pass.now previously name
          (keep (is_orphan known) pass.deployments)
      ∙ ap (λ b. contains_name previously name && b)
          (any_of-keep (λ d. str_eq name d.name) (is_orphan known) (old_enough pass.now)
            pass.deployments)

  sweep-counts :
      (sweep previously pass).pending + length (sweep previously pass).removed
      ≡ length (keep (is_orphan known) pass.deployments)
  unfolding collect_orphans
  sweep-counts =
      ap (λ s. s.pending + length s.removed) sweep-collect
      ∙ visit_all-counts pass.fails pass.now previously (keep (is_orphan known) pass.deployments)

sweep-skipped :
    (previously : List String) (pass : Pass)
    → pass.known ≡ none
    → (sweep previously pass).seen_orphans ≡ previously
unfolding sweep
sweep-skipped previously pass e = rw e

remembered-seen_before :
    (name : String) (passes : List Pass)
    → contains_name (remembered passes) name ≡ seen_before name passes
unfolding remembered seen_before
remembered-seen_before name [] = refl
remembered-seen_before name (pass ∷ earlier) = elim (Option-cases pass.known) [
  | inl e ↦
      ap (λ names. contains_name names name) (sweep-skipped (remembered earlier) pass e)
      ∙ remembered-seen_before name earlier
      ∙ rw e
  | inr (known, e) ↦ sweep-seen_orphans name known pass (remembered earlier) e ∙ rw e
]

-- After any passes, a pass that can read the rooms asks for the removal of a Deployment exactly if it
-- stands without a room and is two minutes old, and one of its name stood without a room at the last
-- pass before that could read the rooms; and every Deployment without a room that it does not remove
-- it counts as waiting.
pub sweep-removed :
    (name : String) (passes : List Pass) (pass : Pass) (known : ℕ → Bool)
    → pass.known ≡ some known
    → (contains_name (sweep (remembered passes) pass).removed name
        ≡ (seen_before name passes && old_orphan name known pass.now pass.deployments))
      × ((sweep (remembered passes) pass).pending + length (sweep (remembered passes) pass).removed
          ≡ length (keep (is_orphan known) pass.deployments))
sweep-removed name passes pass known e = (
  sweep-old_orphan name known pass (remembered passes) e
      ∙ ap (λ b. b && old_orphan name known pass.now pass.deployments)
          (remembered-seen_before name passes),
  sweep-counts name known pass (remembered passes) e,
)
