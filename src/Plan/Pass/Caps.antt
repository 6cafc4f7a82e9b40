-- ===== src/Plan/Pass/Caps.antt =====
-- How many recreations and reaps one pass of puna-orchestrator/src/plan.rs takes.
use puna.Common.{
  ℕ, suc, ◌≡◌, refl, ◌∙◌, Bool, true, false, List, [], ◌∷◌, ◌++◌, map, arith, keep, drop,
  contains-append, count_if, sort_by_key, min, ap, ℤ,
}
use puna.Plan.Pass.Budget.{capped}
use puna.Plan.View.{RoomView, ClusterSnapshot}
use puna.Plan.Decide.{Step}
use puna.Plan.Pass.Places.{Distinct, enumerate-Distinct}
use puna.Plan.Pass.{
  Planned, Action, TickKind, indices, enumerate, planned, by_age, by_idle, kept, plan, to_action,
  age_key, idle_key, is_recreate, is_reap,
}

abbrev pub recreates : Planned → Bool
recreates p = is_recreate p.step

abbrev pub reaps : Planned → Bool
reaps p = is_reap p.step

pub recreates-reaps : (e : Planned) → recreates e ≡ true → reaps e ≡ false
recreates-reaps e h = ground arith

pub reaps-recreates : (e : Planned) → reaps e ≡ true → recreates e ≡ false
reaps-recreates e h = ground arith

-- Of entries with distinct indices exactly as many recreations stay as the cap allows, and one reap.
kept-caps :
    (max_recreates : ℕ) (xs : List Planned)
    → Distinct xs
    → (count_if recreates (kept max_recreates xs) ≡ min max_recreates (count_if recreates xs))
      × (count_if reaps (kept max_recreates xs) ≡ min 1 (count_if reaps xs))
unfolding kept by_age by_idle
kept-caps max_recreates xs d = (
  capped recreates reaps recreates-reaps age_key idle_key max_recreates 1 ds xs d
      (λ i. contains-append old late i),
  capped reaps recreates reaps-recreates idle_key age_key 1 max_recreates ds xs d
      (λ i. ground (arith, contains-append old late i)),
)
  where
    old : List ℕ
    old = indices (drop max_recreates (sort_by_key age_key (keep recreates xs)))

    late : List ℕ
    late = indices (drop 1 (sort_by_key idle_key (keep reaps xs)))

    ds : List ℕ
    ds = old ++ late

count_if-to_action :
    (t : Step → Bool) (xs : List Planned)
    → count_if (λ (a : Action). t a.step) (map to_action xs) ≡ count_if (λ p. t p.step) xs
count_if-to_action t [] = refl
count_if-to_action t (x ∷ xs) = ground (arith, count_if-to_action t xs)

count_if-enumerate :
    (t : Step → Bool) (i : ℕ) (xs : List (RoomView × Step))
    → count_if (λ p. t p.step) (enumerate i xs) ≡ count_if (λ e. t e.1) xs
unfolding enumerate
count_if-enumerate t i [] = refl
count_if-enumerate t i ((room, s) ∷ xs) = ground (arith, count_if-enumerate t (suc i) xs)

-- One pass takes exactly as many of the recreations that it decided on as the cap allows, and one
-- of the reaps that it decided on if there is any; the two budgets do not share.
pub plan-caps :
    (rooms : List RoomView) (cluster : ClusterSnapshot) (now max_recreates : ℕ) (idle_timeout : ℤ)
    (kind : TickKind)
    → let actions = plan rooms cluster now max_recreates idle_timeout kind in
      let decided = planned rooms cluster now idle_timeout kind in
      (count_if (λ a. is_recreate a.step) actions
        ≡ min max_recreates (count_if (λ e. is_recreate e.1) decided))
      × (count_if (λ a. is_reap a.step) actions ≡ min 1 (count_if (λ e. is_reap e.1) decided))
unfolding plan
plan-caps rooms cluster now max_recreates idle_timeout kind =
    let decided = planned rooms cluster now idle_timeout kind in
    let entries = enumerate 0 decided in
    let caps = kept-caps max_recreates entries (enumerate-Distinct 0 decided) in
    (
      count_if-to_action is_recreate (kept max_recreates entries)
          ∙ caps.0
          ∙ ap (min max_recreates) (count_if-enumerate is_recreate 0 decided),
      count_if-to_action is_reap (kept max_recreates entries)
          ∙ caps.1
          ∙ ap (min 1) (count_if-enumerate is_reap 0 decided),
    )
