-- ===== src/Commands/Drain/Healthy.antt =====
-- The statements of a round in which nothing fails.
use puna.Common.{
  ℕ, ◌+◌, ◌≤◌, ◌<◌, ◌≡◌, ◌≢◌, refl, Bool, true, false, not, Option, none, some, List, [], ◌∷◌,
  arith, ◌||◌, count_if, Option-cases, is_some, All, inl, inr, ◌⊎◌,
}
use puna.Commands.Kind.{RoomCommand, CommandState, Why}
use puna.Commands.Probe.{CommandOutput}
use puna.Commands.Queue.{
  Row, claim, is_pending, is_running, has_id, oldest_free, update_where, started, ended, hydrate,
  with_command,
}
use puna.Commands.Drain.{Round}
use puna.Commands.Drain.Once.{waiting, oldest_free-waiting}

abbrev pub pending_in : {C : Type 0} → List (Row C) → ℕ
pending_in = count_if is_pending

abbrev pub running_in : {C : Type 0} → List (Row C) → ℕ
running_in = count_if is_running

-- Nothing fails in the round, nobody else queues a command and nobody holds a row locked.
pub record IsHealthy {J : Type 0} (round : Round J) : Type 0 where
  pub nothing_comes : round.arrivals ≡ []
  pub connected : round.connected ≡ true
  pub claims : round.claim_fails ≡ false
  pub unlocked : (id : ℕ) → round.locked id ≡ false
  pub records : round.finish_fails ≡ false

module _ {J : Type 0} (read : J → Option RoomCommand) where
  -- The command of a row that is pending can be read.
  abbrev pub readable : Row J → Bool
  readable r = not (is_pending r) || is_some (read r.command)

  oldest_free-readable :
      (locked : ℕ → Bool) (rows : List (Row J)) (r : Row J)
      → All (λ r. readable r ≡ true) rows
      → oldest_free locked rows ≡ some r
      → is_some (read r.command) ≡ true
  unfolding oldest_free
  oldest_free-readable locked [] r all e = cc
  oldest_free-readable locked (x ∷ rows) r all e = elim (Option-cases (oldest_free locked rows)) [
    | inl nothing ↦ ground arith
    | inr (best, found) ↦ ground (arith, oldest_free-readable locked rows best all.1 found)
  ]

  nothing_pending :
      (locked : ℕ → Bool) (rows : List (Row J))
      → ((id : ℕ) → locked id ≡ false)
      → oldest_free locked rows ≡ none
      → pending_in rows ≡ 0
  unfolding oldest_free
  nothing_pending locked [] free e = refl
  nothing_pending locked (x ∷ rows) free e =
      ground (arith, free x.id, nothing_pending locked rows free)

  -- What a healthy claim answers.
  abbrev pub Claims : ℕ → List (Row J) → Option (Row RoomCommand) × List (Row J) → Type 0
  Claims now rows answer =
      ((pending_in rows ≡ 0) × (answer ≡ (none, rows)))
      ⊎ ((row : Row RoomCommand) × (answer
            ≡ (some row, update_where (has_id row.id) (started now) rows))
          × (0 < waiting row.id rows))

  pub claim-Claims :
      (now : ℕ) (locked : ℕ → Bool) (rows : List (Row J))
      → ((id : ℕ) → locked id ≡ false)
      → All (λ r. readable r ≡ true) rows
      → Claims now rows (claim read now locked rows)
  unfolding claim hydrate
  claim-Claims now locked rows free all = elim (Option-cases (oldest_free locked rows)) [
    | inl nothing ↦ inl (nothing_pending locked rows free nothing, rw (nothing, claim) refl)
    | inr (r, found) ↦ elim (Option-cases (read r.command)) [
      | inl unread ↦ ground (arith, oldest_free-readable locked rows r all found)
      | inr (command, known) ↦ inr (
        with_command (started now r) command,
        rw (found, claim) (rw (known, hydrate) refl),
        oldest_free-waiting locked rows r found,
      )
    ]
  ]

module _ {J : Type 0} (k now : ℕ) where
  pub started-pending :
      (rows : List (Row J))
      → pending_in (update_where (has_id k) (started now) rows) + waiting k rows ≡ pending_in rows
  started-pending [] = omega arith
  started-pending (r ∷ rows) = ground (arith, started-pending rows)

  pub ended-pending :
      (state : CommandState) (result : Option CommandOutput) (error : Option Why)
      (rows : List (Row J))
      → state ≢ CommandState.pending
      → pending_in (update_where (has_id k) (ended now state result error) rows) ≤ pending_in rows
  ended-pending state result error [] settled = omega arith
  ended-pending state result error (r ∷ rows) settled =
      ground (arith, ended-pending state result error rows settled)

  -- A row that is started and then ended runs no longer.
  pub ended-running :
      (later : ℕ) (state : CommandState) (result : Option CommandOutput) (error : Option Why)
      (rows : List (Row J))
      → state ≢ CommandState.running
      → running_in (
          update_where
            (has_id k)
            (ended later state result error)
            (update_where (has_id k) (started now) rows))
        ≤ running_in rows
  ended-running later state result error [] settled = omega arith
  ended-running later state result error (r ∷ rows) settled =
      ground (arith, ended-running later state result error rows settled)

  pub ended-readable :
      (read : J → Option RoomCommand) (later : ℕ) (state : CommandState)
      (result : Option CommandOutput) (error : Option Why) (rows : List (Row J))
      → state ≢ CommandState.pending
      → All (λ r. readable read r ≡ true) rows
      → All
          (λ r. readable read r ≡ true)
          (update_where
            (has_id k)
            (ended later state result error)
            (update_where (has_id k) (started now) rows))
  ended-readable read later state result error [] settled all = tt
  ended-readable read later state result error (r ∷ rows) settled all =
      (ground arith, ended-readable read later state result error rows settled all.1)
