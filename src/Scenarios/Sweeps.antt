-- ===== src/Scenarios/Sweeps.antt =====
-- Sweeps of a cluster with a Deployment whose room is gone, and turns of the loop.
use puna.Common.{
  ℕ, ◌+◌, ◌≡◌, refl, true, false, ◌&&◌, some, [], ◌∷◌, keep, length, seconds, arith, ◌==◌,
}
use puna.Scenarios.Data.{now, deployed}
use puna.Sweep.{Pass, sweep, remembered, is_orphan, contains_name}
use puna.Sweep.Strikes.{seen_before, old_orphan, sweep-removed}
use puna.Cadence.{Intervals, Met}
use puna.Cadence.Freshness.{Fresh, OnTime-Fresh}
use puna.Cadence

-- The room 7 has no row.
abbrev pass_at : ℕ → Pass
pass_at t = record {
  now = t;
  deployments = deployed 7 "a" 1 ∷ [];
  known = some (λ room. room == 1);
  fails = λ name. false;
}

removed_on_second_strike : (sweep (remembered (pass_at now ∷ [])) (pass_at now)).removed ≡ "mw" ∷ []
unfolding sweep remembered
removed_on_second_strike = refl

sweep-removed_example :
    (contains_name (sweep (remembered (pass_at now ∷ [])) (pass_at now)).removed "mw" ≡ (
      seen_before "mw" (pass_at now ∷ [])
      && old_orphan "mw" (λ room. room == 1) now (deployed 7 "a" 1 ∷ [])))
    × ((sweep (remembered (pass_at now ∷ [])) (pass_at now)).pending
          + length (sweep (remembered (pass_at now ∷ [])) (pass_at now)).removed
        ≡ length (keep (is_orphan (λ room. room == 1)) (deployed 7 "a" 1 ∷ [])))
sweep-removed_example = sweep-removed "mw" (pass_at now ∷ []) (pass_at now) (λ room. room == 1) refl

abbrev intervals : Intervals
intervals = record { reconcile_interval = seconds 30; converge_interval = seconds 5 }

-- A room is in flight, so the loop looks again after five seconds.
abbrev busy_turn : ℕ → Met
busy_turn t = record {
  now = seconds t;
  is_held = true;
  report = some (record { converging = 1; left_work_pending = false });
  over = seconds t;
}

OnTime-Fresh_example :
    Fresh intervals (seconds 1) (seconds 70) (seconds 70) (busy_turn 100 ∷ busy_turn 105 ∷ [])
unfolding Cadence.turn
OnTime-Fresh_example =
    OnTime-Fresh intervals (seconds 1) (seconds 100) (seconds 70)
      (busy_turn 100 ∷ busy_turn 105 ∷ []) (omega arith) (omega arith, (omega arith, tt))
