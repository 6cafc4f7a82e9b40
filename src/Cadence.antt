-- ===== src/Cadence.antt =====
-- The two cadences of the loop: `reconcile_until_lost` of puna-orchestrator/src/main.rs, with
-- `wants_convergence` of puna-orchestrator/src/reconcile.rs. An instant is a number of nanoseconds, and the interval is one that
-- can be taken from the instant of the start.
pub mod Freshness
use puna.Common.{
  ℕ, ◌+◌, ◌-◌, Bool, true, false, ◌&&◌, ◌||◌, not, Option, none, some, List, [], ◌∷◌, if◌then◌else◌,
  leb, ltb, min,
}
use puna.Plan.Pass.{TickKind}

pub record Intervals : Type 0 where
  pub reconcile_interval : ℕ
  pub converge_interval : ℕ

-- What `wants_convergence` reads of a report.
pub record TickReport : Type 0 where
  pub converging : ℕ
  pub left_work_pending : Bool

unfoldable pub wants_convergence : TickReport → Bool
wants_convergence r = ltb 0 r.converging || r.left_work_pending

-- What a turn of the loop meets: the instant of its start, whether the lock is held, the report of its
-- pass unless that failed, and the instant when the pass is over.
pub record Met : Type 0 where
  pub now : ℕ
  pub is_held : Bool
  pub report : Option TickReport
  pub over : ℕ

-- What a turn does: its kind of pass, whether readiness is told of it, and until when it sleeps.
pub record Turn : Type 0 where
  pub kind : TickKind
  pub ticked : Bool
  pub last_reconcile : ℕ
  pub next : ℕ

abbrev pub is_reconcile : TickKind → Bool
is_reconcile TickKind.reconcile = true
is_reconcile TickKind.converge = false

unfoldable pub kind_of : Intervals → ℕ → ℕ → TickKind
kind_of i last now =
    if leb (last + i.reconcile_interval) now then TickKind.reconcile else TickKind.converge

abbrev is_converging : Option TickReport → Bool
is_converging none = false
is_converging (some r) = wants_convergence r

abbrev is_ok : Option TickReport → Bool
is_ok none = false
is_ok (some r) = true

-- `none` where the lock is no longer held and the loop returns.
unfoldable pub turn : Intervals → ℕ → Met → Option Turn
unfolding kind_of wants_convergence
turn i last met =
    let kind = kind_of i last met.now in
    let last' = if is_reconcile kind then met.now else last in
    let next_full = last' + i.reconcile_interval in
    if not met.is_held
    then none
    else some (record {
      kind = kind;
      ticked = is_reconcile kind && is_ok met.report;
      last_reconcile = last';
      next =
          if is_converging met.report
          then min next_full (met.over + i.converge_interval)
          else next_full;
    })

-- The turns of the loop, until it returns.
unfoldable pub run_from : Intervals → ℕ → List Met → List Turn
unfolding turn
run_from i last [] = []
run_from i last (met ∷ rest) = elim (turn i last met) [
  | none ↦ []
  | some t ↦ t ∷ run_from i t.last_reconcile rest
]

unfoldable pub reconcile_until_lost : Intervals → ℕ → List Met → List Turn
unfolding run_from
reconcile_until_lost i start mets = run_from i (start - i.reconcile_interval) mets
