-- ===== src/Commands/Drain/Once.antt =====
-- No command is run more often than it was asked for.
use puna.Common.{
  ℕ, ◌+◌, ◌≤◌, ◌<◌, ◌≡◌, ◌≢◌, refl, ap, Bool, true, false, Option, none, some, String, List, [],
  ◌∷◌, ◌++◌, if◌then◌else◌, arith, ◌==◌, ◌&&◌, count_if, count_if-append, Option-cases, Bool-cases,
  inl, inr, ℤ,
}
use puna.Filters.Rule.{Rule}
use puna.Commands.Kind.{RoomCommand, CommandState, Why}
use puna.Commands.Probe.{CommandOutput}
use puna.Commands.Queue.{
  Row, claim, finish, fail_stale, is_pending, has_id, oldest_free, update_where, started, ended,
  hydrate,
}
use puna.Commands.Dispatch.{Outcome, execute}
use puna.Commands.Dispatch.Answered.{execute-IsSettled, IsSettled}
use puna.Commands.Drain.{
  Round, Ran, Drained, drain, drain_round, drain_claimed, finished, Turn, run, stale_after,
}

-- The rows of an id that are pending.
abbrev pub waits : {C : Type 0} → ℕ → Row C → Bool
waits id r = is_pending r && has_id id r

abbrev pub waiting : {C : Type 0} → ℕ → List (Row C) → ℕ
waiting id = count_if (waits id)

-- How often a command of this id was run.
abbrev pub times : {F : Type 0} → ℕ → List (Ran F) → ℕ
times id = count_if (λ r. r.id == id)

abbrev pub coming : {J : Type 0} → ℕ → List (Round J) → ℕ
coming id [] = 0
coming id (round ∷ rounds) = waiting id round.arrivals + coming id rounds

module _ {J : Type 0} where
  pub oldest_free-waiting :
      (locked : ℕ → Bool) (rows : List (Row J)) (r : Row J)
      → oldest_free locked rows ≡ some r
      → 0 < waiting r.id rows
  unfolding oldest_free
  oldest_free-waiting locked [] r e = cc
  oldest_free-waiting locked (x ∷ rows) r e = elim (Option-cases (oldest_free locked rows)) [
    | inl nothing ↦ ground arith
    | inr (best, found) ↦ ground (arith, oldest_free-waiting locked rows best found)
  ]

  pub started-waiting :
      (id k now : ℕ) (rows : List (Row J))
      → waiting id (update_where (has_id k) (started now) rows)
        ≡ (if id == k then 0 else waiting id rows)
  started-waiting id k now [] = ground arith
  started-waiting id k now (r ∷ rows) = ground (arith, started-waiting id k now rows)

  pub claim-waiting :
      (read : J → Option RoomCommand) (now : ℕ) (locked : ℕ → Bool) (id : ℕ) (rows : List (Row J))
      → waiting id (claim read now locked rows).1 ≤ waiting id rows
  unfolding claim
  claim-waiting read now locked id rows = elim (Option-cases (oldest_free locked rows)) [
    | inl nothing ↦ rw (nothing, claim) (omega arith)
    | inr (r, found) ↦ rw (found, claim) (ground (arith, started-waiting id r.id now rows))
  ]

  pub same_waiting : (a b : ℕ) (rows : List (Row J)) → a ≡ b → waiting a rows ≡ waiting b rows
  same_waiting a b rows e = ap (λ n. waiting n rows) e

  pub claim-claimed :
      (read : J → Option RoomCommand) (now : ℕ) (locked : ℕ → Bool) (id : ℕ) (rows : List (Row J))
      (row : Row RoomCommand)
      → (claim read now locked rows).0 ≡ some row
      → (waiting id (claim read now locked rows).1 ≡ (if id == row.id then 0 else waiting id rows))
        × (0 < waiting row.id rows)
  unfolding claim hydrate
  claim-claimed read now locked id rows row e = elim (Option-cases (oldest_free locked rows)) [
    | inl nothing ↦ ground arith
    | inr (r, found) ↦
        ground (arith, started-waiting id r.id now rows, oldest_free-waiting locked rows r found)
  ]

  pub ended-waiting :
      (id k now : ℕ) (state : CommandState) (result : Option CommandOutput) (error : Option Why)
      (rows : List (Row J))
      → state ≢ CommandState.pending
      → waiting id (update_where (has_id k) (ended now state result error) rows)
        ≡ (if id == k then 0 else waiting id rows)
  ended-waiting id k now state result error [] settled = ground arith
  ended-waiting id k now state result error (r ∷ rows) settled =
      ground (arith, ended-waiting id k now state result error rows settled)

  fail_stale-waiting :
      (id now older_than : ℕ) (rows : List (Row J))
      → waiting id (fail_stale now older_than rows).1 ≤ waiting id rows
  unfolding fail_stale
  fail_stale-waiting id now older_than [] = omega arith
  fail_stale-waiting id now older_than (r ∷ rows) =
      ground (arith, fail_stale-waiting id now older_than rows)

IsSettled-state : (o : Outcome) → IsSettled o → o.state ≢ CommandState.pending
IsSettled-state o h = ground arith

module _ {F J : Type 0} (read : J → Option RoomCommand) (decode : J → Option (List (Rule F)))
    (to_json : List (ℤ × String) → String) where
  pub finished-waiting :
      (id : ℕ) (round : Round J) (row : Row RoomCommand) (rows : List (Row J))
      → waiting id (finished read decode to_json round row rows)
        ≡ (if id == row.id then 0 else waiting id rows)
  unfolding finish
  finished-waiting id round row rows =
      let outcome = (execute decode to_json round.world row).0 in
      ended-waiting id row.id round.finished_at outcome.state outcome.result outcome.error rows
        (IsSettled-state outcome (execute-IsSettled decode to_json round.world row))

  -- The runs of an id that a drain makes, with what is left waiting.
  abbrev run_or_waiting : ℕ → Drained F J → ℕ
  run_or_waiting id d = times id d.ran + waiting id d.rows

  drain_claimed-times :
      (id more before : ℕ) (round : Round J) (rest : List (Row J) → Drained F J)
      (answer : Option (Row RoomCommand) × List (Row J))
      → ((later : List (Row J)) → run_or_waiting id (rest later) ≤ waiting id later + more)
      → waiting id answer.1 ≤ before
      → ((row : Row RoomCommand)
          → answer.0 ≡ some row
          → (if row.id == id then 1 else 0) + waiting id answer.1 ≤ before)
      → run_or_waiting id (drain_claimed read decode to_json round rest answer) ≤ before + more
  unfolding drain_claimed
  drain_claimed-times id more before round rest (none, rows) h kept cost = omega arith
  drain_claimed-times id more before round rest (some row, rows) h kept cost =
      elim (Bool-cases round.finish_fails) [
        | inl lost ↦ rw (lost, drain_claimed) (ground (arith, cost row refl))
        | inr recorded ↦
            let later = finished read decode to_json round row rows in
            rw (recorded, drain_claimed)
              (ground (arith, cost row refl, h later, finished-waiting id round row rows))
      ]

  claim-cost :
      (id now : ℕ) (locked : ℕ → Bool) (rows : List (Row J)) (row : Row RoomCommand)
      → (claim read now locked rows).0 ≡ some row
      → (if row.id == id then 1 else 0) + waiting id (claim read now locked rows).1
        ≤ waiting id rows
  claim-cost id now locked rows row e =
      let (after, held) = claim-claimed read now locked id rows row e in
      ground (arith, same_waiting id row.id rows)

  drain_round-times :
      (id more : ℕ) (round : Round J) (rest : List (Row J) → Drained F J) (rows : List (Row J))
      → ((later : List (Row J)) → run_or_waiting id (rest later) ≤ waiting id later + more)
      → run_or_waiting id (drain_round read decode to_json round rest rows) ≤ waiting id rows + more
  unfolding drain_round
  drain_round-times id more round rest rows h = elim (Bool-cases round.connected) [
    | inr cut_off ↦ rw (cut_off, drain_round) (omega arith)
    | inl connected ↦ elim (Bool-cases round.claim_fails) [
      | inl failed ↦ rw (connected, failed, drain_round) (omega arith)
      | inr went ↦
          rw (connected, went, drain_round)
            (drain_claimed-times id more (waiting id rows) round rest
              (claim read round.claimed_at round.locked rows) h
              (claim-waiting read round.claimed_at round.locked id rows)
              (claim-cost id round.claimed_at round.locked rows))
    ]
  ]

  drain-times :
      (id : ℕ) (rounds : List (Round J)) (rows : List (Row J))
      → run_or_waiting id (drain read decode to_json rounds rows)
        ≤ waiting id rows + coming id rounds
  unfolding drain
  drain-times id [] rows = omega arith
  drain-times id (round ∷ rounds) rows = omega (
    arith,
    drain_round-times id (coming id rounds) round (drain read decode to_json rounds)
        (round.arrivals ++ rows) (drain-times id rounds),
    count_if-append (waits id) round.arrivals rows,
  )

  abbrev pub coming_in : ℕ → List (Turn read decode to_json) → ℕ
  coming_in id [] = 0
  coming_in id (Turn.recover fails now ∷ turns) = coming_in id turns
  coming_in id (Turn.drain_queue rounds ∷ turns) = coming id rounds + coming_in id turns

  -- Over all the turns of the dispatcher, and whatever fails of them, the commands of an id are run at
  -- most as often as pending rows of it are there at first or come in: what is waiting at the end is
  -- to be taken off. So a command that is queued once is never run twice, also when the record of its
  -- outcome is lost or the sweep of stale rows fails it.
  pub run-times :
      (id : ℕ) (turns : List (Turn read decode to_json)) (rows : List (Row J))
      → times id (run read decode to_json turns rows).1
          + waiting id (run read decode to_json turns rows).0
        ≤ waiting id rows + coming_in id turns
  unfolding run
  run-times id [] rows = omega arith
  run-times id (Turn.recover true now ∷ turns) rows = run-times id turns rows
  run-times id (Turn.recover false now ∷ turns) rows = omega (
    arith,
    run-times id turns (fail_stale now stale_after rows).1,
    fail_stale-waiting id now stale_after rows,
  )
  run-times id (Turn.drain_queue rounds ∷ turns) rows =
      let d = drain read decode to_json rounds rows in
      omega (
        arith,
        drain-times id rounds rows,
        run-times id turns d.rows,
        count_if-append (λ (r : Ran F). r.id == id) d.ran (run read decode to_json turns d.rows).1,
      )
