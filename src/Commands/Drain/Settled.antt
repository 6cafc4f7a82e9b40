-- ===== src/Commands/Drain/Settled.antt =====
-- A drain that nothing fails of runs every command that waits, and ends.
use puna.Common.{
  ℕ, ◌+◌, ◌≤◌, ◌<◌, ◌≡◌, ◌≢◌, refl, ap, sym, subst, ◌∙◌, true, Option, some, String, List, [], ◌∷◌,
  ◌++◌, if◌then◌else◌, arith, ◌==◌, All, length, min, inl, inr, ◌⊎◌, ℤ,
}
use puna.Filters.Rule.{Rule}
use puna.Commands.Kind.{RoomCommand, CommandState}
use puna.Commands.Queue.{Row, claim, finish, has_id, update_where, started}
use puna.Commands.Dispatch.{Outcome, execute}
use puna.Commands.Dispatch.Answered.{execute-IsSettled, IsSettled}
use puna.Commands.Drain.{
  Round, Drained, drain, drain_round, drain_claimed, finished, ran_of, returned, also_ran,
}
use puna.Commands.Drain.Once.{waiting, times, started-waiting, finished-waiting}
use puna.Commands.Drain.Healthy.{
  pending_in, running_in, IsHealthy, readable, Claims, claim-Claims, started-pending, ended-pending,
  ended-running, ended-readable,
}

module _ {F J : Type 0} (read : J → Option RoomCommand) (decode : J → Option (List (Rule F)))
    (to_json : List (ℤ × String) → String) where
  healthy_round :
      (round : Round J) (rest : List (Row J) → Drained F J) (rows : List (Row J))
      → IsHealthy round
      → drain_round read decode to_json round rest rows
        ≡ drain_claimed read decode to_json round rest
            (claim read round.claimed_at round.locked rows)
  unfolding drain_round
  healthy_round round rest rows healthy = simp (healthy.connected, healthy.claims, drain_round)

  recorded_round :
      (round : Round J) (rest : List (Row J) → Drained F J) (row : Row RoomCommand)
      (rows : List (Row J))
      → IsHealthy round
      → drain_claimed read decode to_json round rest (some row, rows)
        ≡ also_ran
            (ran_of read decode to_json round row)
            (rest (finished read decode to_json round row rows))
  unfolding drain_claimed
  recorded_round round rest row rows healthy = simp (healthy.records, drain_claimed)

  -- The table after a healthy round that ran `row`.
  abbrev table_after : Round J → Row RoomCommand → List (Row J) → List (Row J)
  table_after round row rows =
      finished read decode to_json round row
        (update_where (has_id row.id) (started round.claimed_at) rows)

  -- What a healthy round does: it ends if nothing is pending, and else runs a command and goes on.
  abbrev Stepped : Round J → (List (Row J) → Drained F J) → List (Row J) → Drained F J → Type 0
  Stepped round rest rows d =
      ((pending_in rows ≡ 0) × (d ≡ returned rows))
      ⊎ ((row : Row RoomCommand) × (0 < waiting row.id rows)
          × (d
              ≡ also_ran (ran_of read decode to_json round row)
                  (rest (table_after round row rows))))

  claimed-Stepped :
      (round : Round J) (rest : List (Row J) → Drained F J) (rows : List (Row J))
      (answer : Option (Row RoomCommand) × List (Row J))
      → IsHealthy round
      → Claims read round.claimed_at rows answer
      → Stepped round rest rows (drain_claimed read decode to_json round rest answer)
  unfolding drain_claimed
  claimed-Stepped round rest rows answer healthy (inl (empty, e)) =
      inl (empty, ap (drain_claimed read decode to_json round rest) e)
  claimed-Stepped round rest rows answer healthy (inr (row, e, held)) = inr (
    row,
    held,
    ap (drain_claimed read decode to_json round rest) e
        ∙ recorded_round round rest row
            (update_where (has_id row.id) (started round.claimed_at) rows) healthy,
  )

  drain_round-Stepped :
      (round : Round J) (rest : List (Row J) → Drained F J) (rows : List (Row J))
      → IsHealthy round
      → All (λ r. readable read r ≡ true) rows
      → Stepped round rest rows (drain_round read decode to_json round rest rows)
  drain_round-Stepped round rest rows healthy all =
      subst (Stepped round rest rows) (sym (healthy_round round rest rows healthy)) (
        claimed-Stepped round rest rows (claim read round.claimed_at round.locked rows) healthy
          (claim-Claims read round.claimed_at round.locked rows healthy.unlocked all))

  -- The outcome of a command is none of these.
  over :
      (o : Outcome)
      → IsSettled o
      → (o.state ≢ CommandState.pending) × (o.state ≢ CommandState.running)
  over o (inl h) = (λ e. cc, λ e. cc)
  over o (inr (inl h)) = (λ e. cc, λ e. cc)
  over o (inr (inr h)) = (λ e. cc, λ e. cc)

  table_after-readable :
      (round : Round J) (row : Row RoomCommand) (rows : List (Row J))
      → All (λ r. readable read r ≡ true) rows
      → All (λ r. readable read r ≡ true) (table_after round row rows)
  unfolding finish
  table_after-readable round row rows =
      let o = (execute decode to_json round.world row).0 in
      ended-readable row.id round.claimed_at read round.finished_at o.state o.result o.error rows
        (over o (execute-IsSettled decode to_json round.world row)).0

  table_after-counts :
      (round : Round J) (row : Row RoomCommand) (rows : List (Row J))
      → (pending_in (table_after round row rows) + waiting row.id rows ≤ pending_in rows)
        × (running_in (table_after round row rows) ≤ running_in rows)
  unfolding finish
  table_after-counts round row rows =
      let o = (execute decode to_json round.world row).0 in
      let (not_pending, not_running) = over o (execute-IsSettled decode to_json round.world row) in
      let begun = update_where (has_id row.id) (started round.claimed_at) rows in
      (
        omega (
          arith,
          started-pending row.id round.claimed_at rows,
          ended-pending row.id round.finished_at o.state o.result o.error begun not_pending,
        ),
        ended-running row.id round.claimed_at round.finished_at o.state o.result o.error rows
            not_running,
      )

  waiting-le-pending_in : (id : ℕ) (rows : List (Row J)) → waiting id rows ≤ pending_in rows
  waiting-le-pending_in id [] = omega arith
  waiting-le-pending_in id (r ∷ rows) = ground (arith, waiting-le-pending_in id rows)

  table_after-waiting :
      (id : ℕ) (round : Round J) (row : Row RoomCommand) (rows : List (Row J))
      → min 1 (waiting id rows)
        ≤ (if row.id == id then 1 else 0) + min 1 (waiting id (table_after round row rows))
  table_after-waiting id round row rows = ground (
    arith,
    started-waiting id row.id round.claimed_at rows,
    finished-waiting read decode to_json id round row
        (update_where (has_id row.id) (started round.claimed_at) rows),
  )

  -- What a drain leaves of a table.
  abbrev pub HasSettled : ℕ → List (Row J) → Drained F J → Type 0
  HasSettled id rows d =
      (d.ended ≡ true)
      × (pending_in d.rows ≡ 0)
      × (running_in d.rows ≤ running_in rows)
      × (min 1 (waiting id rows) ≤ times id d.ran)

  returned-HasSettled :
      (id : ℕ) (rows : List (Row J)) → pending_in rows ≡ 0 → HasSettled id rows (returned rows)
  returned-HasSettled id rows empty =
      (refl, empty, omega arith, omega (arith, waiting-le-pending_in id rows))

  also_ran-HasSettled :
      (id : ℕ) (round : Round J) (row : Row RoomCommand) (rows : List (Row J)) (d : Drained F J)
      → HasSettled id (table_after round row rows) d
      → HasSettled id rows (also_ran (ran_of read decode to_json round row) d)
  also_ran-HasSettled id round row rows d h = (
    h.0,
    h.1,
    omega (arith, (table_after-counts round row rows).1),
    ground (arith, table_after-waiting id round row rows),
  )

  -- A drain in whose rounds nothing fails, nobody else queues a command and nobody holds a row locked,
  -- over a table whose pending commands can all be read, and watched for more rounds than commands wait:
  -- it ends, no row is pending then and no more run than did before, and each id that waited was run.
  pub drain-HasSettled :
      (id : ℕ) (rounds : List (Round J)) (rows : List (Row J))
      → All IsHealthy rounds
      → All (λ r. readable read r ≡ true) rows
      → pending_in rows < length rounds
      → HasSettled id rows (drain read decode to_json rounds rows)
  unfolding drain
  drain-HasSettled id [] rows healthy all enough = absurd (omega arith)
  drain-HasSettled id (round ∷ rounds) rows healthy all enough =
      subst
        (λ l.
          HasSettled id rows
            (drain_round read decode to_json round (drain read decode to_json rounds) (l ++ rows)))
        (sym healthy.0.nothing_comes)
        (step (drain_round-Stepped round (drain read decode to_json rounds) rows healthy.0 all)
          (λ row.
            drain-HasSettled id rounds (table_after round row rows) healthy.1
              (table_after-readable round row rows all)))
    where
      step :
          Stepped round
            (drain read decode to_json rounds)
            rows
            (drain_round read decode to_json round (drain read decode to_json rounds) rows)
          → ((row : Row RoomCommand)
              → pending_in (table_after round row rows) < length rounds
              → HasSettled id
                  (table_after round row rows)
                  (drain read decode to_json rounds (table_after round row rows)))
          → HasSettled id rows
              (drain_round read decode to_json round (drain read decode to_json rounds) rows)
      step (inl (empty, e)) more =
          subst (HasSettled id rows) (sym e) (returned-HasSettled id rows empty)
      step (inr (row, held, e)) more = subst (HasSettled id rows) (sym e) (
          also_ran-HasSettled id round row rows
            (drain read decode to_json rounds (table_after round row rows))
            (more row (omega (arith, table_after-counts round row rows))))
