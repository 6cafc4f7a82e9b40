-- ===== src/Cadence/Freshness.antt =====
-- The full pass is never starved: `reconcile_until_lost` of puna-orchestrator/src/main.rs.
use puna.Common.{
  ℕ, ◌+◌, ◌≤◌, ◌≡◌, ◌↔◌, true, none, some, List, [], ◌∷◌, arith, Option-cases, inl, inr, subst,
  if◌then◌else◌,
}
use puna.Plan.Pass.{TickKind}
use puna.Cadence.{Intervals, Met, Turn, is_reconcile, turn}

module _ (i : Intervals) (late : ℕ) where
  -- Each turn starts at most `late` after the instant until which the loop slept: the sleep ends there
  -- or before, and `late` bounds what a turn waits for besides.
  abbrev pub OnTime : ℕ → ℕ → List Met → Type 0
  OnTime wake last [] = Unit
  OnTime wake last (met ∷ rest) =
      (met.now ≤ wake + late)
      × elim (turn i last met) [ none ↦ Unit | some t ↦ OnTime t.next t.last_reconcile rest ]

  -- When the last full pass started, once a pass of a kind was started.
  abbrev pub full_pass : TickKind → ℕ → ℕ → ℕ
  full_pass kind now last = if is_reconcile kind then now else last

  -- The turns that the loop makes while it keeps `kept` as its own record, where the last full pass
  -- started at `last`: each starts within the interval and `late` of that pass, is a full pass
  -- exactly if the interval is over, and sleeps no longer than until the next one is due.
  abbrev pub Fresh : ℕ → ℕ → List Met → Type 0
  Fresh kept last [] = Unit
  Fresh kept last (met ∷ rest) =
      (met.now ≤ last + i.reconcile_interval + late) × elim (turn i kept met) [
        | none ↦ Unit
        | some t ↦
            ((is_reconcile t.kind ≡ true) ↔ (last + i.reconcile_interval ≤ met.now))
            × (t.next ≤ full_pass t.kind met.now last + i.reconcile_interval)
            × Fresh t.last_reconcile (full_pass t.kind met.now last) rest
      ]

  turn-next :
      (last : ℕ) (met : Met) (t : Turn)
      → turn i last met ≡ some t
      → t.next ≤ full_pass t.kind met.now last + i.reconcile_interval
  unfolding turn
  turn-next last met t h = ground arith

  turn-is_reconcile :
      (last : ℕ) (met : Met) (t : Turn)
      → turn i last met ≡ some t
      → (is_reconcile t.kind ≡ true) ↔ (last + i.reconcile_interval ≤ met.now)
  unfolding turn
  turn-is_reconcile last met t h = (λ k. ground arith, λ k. ground arith)

  turn-last_reconcile :
      (last : ℕ) (met : Met) (t : Turn)
      → turn i last met ≡ some t
      → t.last_reconcile ≡ full_pass t.kind met.now last
  unfolding turn
  turn-last_reconcile last met t h = ground arith

  -- However many short passes there are, and whatever they report or whether they fail, they put no
  -- full pass off: provided that no turn starts later than `late` after the loop's sleep was to end,
  -- every turn starts within the interval and `late` of the instant when the last full pass started, is
  -- a full pass exactly if the interval since that instant is over, and sleeps no longer than until the
  -- interval since the last full pass, itself counted if it is one, is over. The first turn counts from
  -- the instant that the loop is started with.
  pub OnTime-Fresh :
      (wake last : ℕ) (mets : List Met)
      → wake ≤ last + i.reconcile_interval
      → OnTime wake last mets
      → Fresh last last mets
  OnTime-Fresh wake last [] h o = tt
  OnTime-Fresh wake last (met ∷ rest) h o = (
    omega (arith, o.0),
    elim (Option-cases (turn i last met)) [
      | inl e ↦ rw e tt
      | inr (t, e) ↦
          let same = turn-last_reconcile last met t e in
          let soon = turn-next last met t e in
          rw e (
            turn-is_reconcile last met t e,
            soon,
            subst (λ n. Fresh t.last_reconcile n rest) same
                (OnTime-Fresh t.next t.last_reconcile rest (omega arith)
                  (let later = o.1 in rw e at later)),
          )
    ],
  )
