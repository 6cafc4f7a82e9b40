-- ===== src/Commands/Drain.antt =====
-- The loop of the dispatcher: `drain`, `recover` and `run` of puna-orchestrator/src/dispatch.rs. A round of `drain`
-- has what is answered during it, and what others queued before it; the rounds given are as many as the
-- run is watched for. Metrics and the wake-ups are left out: `run` turns whenever it is woken or five
-- seconds have passed.
pub mod Once
pub mod Healthy
pub mod Settled
use puna.Common.{
  ℕ, suc, ◌+◌, Bool, true, false, Option, none, some, String, List, [], ◌∷◌, ◌++◌, if◌then◌else◌,
  ◌==◌, seconds, count_if, ◌&&◌, ℤ,
}
use puna.Filters.Rule.{Rule}
use puna.Commands.Kind.{RoomCommand}
use puna.Commands.Queue.{Row, claim, finish, fail_stale, is_pending, has_id}
use puna.Commands.Dispatch.{World, Effect, Outcome, execute}

pub record Round (J : Type 0) : Type 0 where
  pub arrivals : List (Row J)
  pub connected : Bool
  pub claim_fails : Bool
  pub locked : ℕ → Bool
  pub claimed_at : ℕ
  pub world : World J
  pub finish_fails : Bool
  pub finished_at : ℕ

-- A command that was run, with the calls made for it.
pub record Ran (F : Type 0) : Type 0 where
  pub id : ℕ
  pub command : RoomCommand
  pub effects : List (Effect F)

-- What a drain leaves; `ended` says that it returned within the rounds.
pub record Drained (F J : Type 0) : Type 0 where
  pub rows : List (Row J)
  pub ran : List (Ran F)
  pub ended : Bool

-- `STALE_AFTER`.
abbrev pub stale_after : ℕ
stale_after = seconds 120

abbrev pub returned : {F J : Type 0} → List (Row J) → Drained F J
returned rows = record { rows = rows; ran = []; ended = true }

abbrev pub also_ran : {F J : Type 0} → Ran F → Drained F J → Drained F J
also_ran r d = record d { ran = r ∷ d.ran }

module _ {F J : Type 0} (read : J → Option RoomCommand) (decode : J → Option (List (Rule F)))
    (to_json : List (ℤ × String) → String) where
  abbrev pub finished : Round J → Row RoomCommand → List (Row J) → List (Row J)
  finished round row rows =
      let outcome = (execute decode to_json round.world row).0 in
      finish round.finished_at row.id outcome.state outcome.result outcome.error rows

  abbrev pub ran_of : Round J → Row RoomCommand → Ran F
  ran_of round row = record {
    id = row.id;
    command = row.command;
    effects = (execute decode to_json round.world row).1;
  }

  -- A round once the claim is answered; `rest` goes on with the table that is left.
  unfoldable pub drain_claimed :
      Round J → (List (Row J) → Drained F J) → Option (Row RoomCommand) × List (Row J) → Drained F J
  drain_claimed round rest (none, rows) = returned rows
  drain_claimed round rest (some row, rows) =
      also_ran (ran_of round row)
        (elim round.finish_fails [ true ↦ returned rows | false ↦ rest (finished round row rows) ])

  unfoldable pub drain_round : Round J → (List (Row J) → Drained F J) → List (Row J) → Drained F J
  drain_round round rest rows = elim round.connected [
    | false ↦ returned rows
    | true ↦ elim round.claim_fails [
      | true ↦ returned rows
      | false ↦ drain_claimed round rest (claim read round.claimed_at round.locked rows)
    ]
  ]

  unfoldable pub drain : List (Round J) → List (Row J) → Drained F J
  drain [] rows = record { rows = rows; ran = []; ended = false }
  drain (round ∷ rounds) rows = drain_round round (drain rounds) (round.arrivals ++ rows)

  -- What `run` does between two waits: a sweep of stale rows that may fail, or a drain.
  pub data Turn : Type 0 where
    recover : Bool → ℕ → Turn
    drain_queue : List (Round J) → Turn

  unfoldable pub run : List Turn → List (Row J) → List (Row J) × List (Ran F)
  run [] rows = (rows, [])
  run (Turn.recover true now ∷ turns) rows = run turns rows
  run (Turn.recover false now ∷ turns) rows = run turns (fail_stale now stale_after rows).1
  run (Turn.drain_queue rounds ∷ turns) rows =
      let d = drain rounds rows in let (later, ran) = run turns d.rows in (later, d.ran ++ ran)
