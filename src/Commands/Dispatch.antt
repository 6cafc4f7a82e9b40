-- ===== src/Commands/Dispatch.antt =====
-- How the dispatcher runs a command: `execute`, `rotate` and `push_filter` of
-- puna-orchestrator/src/dispatch.rs with `apply_room_secret` of puna-orchestrator/src/sweep.rs. What the
-- database, the cluster and the room answer is an argument; each is asked at most once for a command, save
-- for the secrets. A call to the cluster or to the room is an effect, kept in the order of the calls.
pub mod Answered
pub mod Pushed
use puna.Common.{
  ℕ, ◌+◌, Bool, true, false, Option, none, some, String, List, [], ◌∷◌, ◌++◌, map, if◌then◌else◌,
  ◌==◌, str_eq, length, find_first, ℤ,
}
use mathlib.Core.Option
use puna.Model.SlotAuth.{SlotAuth}
use puna.Plan.View.{RoomDeployment}
use puna.Apply.{SecretSpec, Reply, ClusterError}
use puna.Spec.Secret.{RoomSecrets, build}
use puna.Spec.Secret
use puna.Filters.Rule.{Rule}
use puna.Filters.Stored.{StoredFilters, room_filter, slot_filter, to_stored}
use puna.Filters.Stored
use puna.Roster.Slots.{Slot}
use puna.Roster.Slots.Built.{to_secret}
use puna.Commands.Kind.{RoomCommand, CommandState, Why, Disposition, disposition_state, from_status}
use puna.Commands.Probe.{CommandOutput, Line, ProbeError, RoomError, Exchange, Said, said}
use puna.Commands.Queue.{Row}

-- What is answered while one command is run. `none` is an error or nothing found, where the code takes
-- these alike; of a call that only succeeds or fails, `none` is success.
pub record World (J : Type 0) : Type 0 where
  pub commands : Bool
  pub room_state : Option String
  pub base_port : Option ℕ
  pub token : Option String
  pub room : Option (SlotAuth × Option String)
  pub secrets : Option RoomSecrets
  pub slots : Option (List Slot)
  pub deployment : Reply (Option RoomDeployment)
  pub secret_applied : Reply (Unit {0})
  pub marking_fails : Bool
  pub filters : Option (StoredFilters J)
  pub password_set : Option ProbeError
  pub filter_set : Option ProbeError
  pub asked : RoomCommand → Exchange

pub data Effect (F : Type 0) : Type 0 where
  write_secret : SecretSpec → Effect F
  set_password : ℕ → String → Effect F
  set_filter : Stored.Call F → Effect F
  send : RoomCommand → Effect F

pub record Outcome : Type 0 where
  pub state : CommandState
  pub result : Option CommandOutput
  pub error : Option Why

abbrev pub failing : Why → Outcome
failing why = record { state = CommandState.failed; result = none; error = some why }

abbrev pub rejecting : Why → Outcome
rejecting why = record { state = CommandState.rejected; result = none; error = some why }

abbrev pub answering : CommandOutput → Outcome
answering output = record { state = CommandState.ok; result = some output; error = none }

-- The port and the token of a room that is up.
unfoldable pub reachable : {J : Type 0} → World J → Option (ℕ × String)
reachable w = elim w.room_state [
  | none ↦ none
  | some state ↦
      if str_eq state "running"
      then elim w.base_port [
        | none ↦ none
        | some port ↦ Option.map (λ token. (port, token)) w.token
      ]
      else none
]

unfoldable pub disposition : ProbeError → Disposition
unfolding from_status
disposition (ProbeError.room (RoomError.status n)) = from_status n
disposition (ProbeError.room (RoomError.refused n detail)) = from_status n
disposition (ProbeError.room RoomError.rate_limited) = Disposition.rate_limited
disposition (ProbeError.unsupported what) = Disposition.malformed
disposition _ = Disposition.failed

module _ {F J : Type 0} (decode : J → Option (List (Rule F))) where
  abbrev pub pushed_line : Option ℕ → Option (List (Rule F)) → Line
  pushed_line none none = Line.room_filter_removed
  pushed_line none (some rules) = Line.room_filter_set (length rules)
  pushed_line (some n) none = Line.slot_follows
  pushed_line (some n) (some []) = Line.slot_exempt
  pushed_line (some n) (some (r ∷ rules)) = Line.slot_filter_set (length (r ∷ rules))

  abbrev pub stored_rules : Option ℕ → StoredFilters J → Option (List (Rule F))
  unfolding room_filter slot_filter to_stored
  stored_rules none s = room_filter decode s
  stored_rules (some n) s = to_stored (slot_filter decode s n)

  unfoldable pub push_filter : World J → Option ℕ → Outcome × List (Effect F)
  unfolding stored_rules
  push_filter w slot = elim w.filters [
    | none ↦ (failing Why.unreadable_filter, [])
    | some stored ↦ (
      elim w.filter_set [
        | none ↦ answering (record {
          did = true;
          output = pushed_line slot (stored_rules slot stored) ∷ [];
          affected_slots = [];
        })
        | some e ↦ failing (Why.filter_refused e)
      ],
      Effect.set_filter (record { slot = slot; rules = stored_rules slot stored }) ∷ [],
    )
  ]

abbrev pub password_of : ℕ → List Slot → Option String
password_of n slots = elim (find_first (λ s. s.slot_number == n) slots) [
  | none ↦ none
  | some s ↦ s.password
]

module _ {F J : Type 0} where
  -- The live push, once the Secret is written.
  unfoldable pub push_password : World J → ℕ → List Slot → Outcome × List (Effect F)
  push_password w n slots = elim (password_of n slots) [
    | none ↦ (failing Why.no_password, [])
    | some password ↦ (
      elim w.password_set [
        | none ↦
            answering
              (record { did = true; output = Line.password_rotated ∷ []; affected_slots = n ∷ [] })
        | some (ProbeError.unsupported what) ↦ answering (record {
          did = false;
          output = Line.stored_until_restart ∷ [];
          affected_slots = n ∷ [];
        })
        | some e ↦ failing (Why.password_refused e)
      ],
      Effect.set_password n password ∷ [],
    )
  ]

  abbrev pub after_secret :
      World J → ℕ → List Slot → Bool × List (Effect F) → Outcome × List (Effect F)
  after_secret w n slots (false, calls) = (failing Why.secret_not_written, calls)
  after_secret w n slots (true, calls) =
      let (outcome, more) = push_password w n slots in (outcome, calls ++ more)

abbrev pub is_written : {J : Type 0} → World J → Reply (Unit {0}) → Bool
is_written w (Reply.err e) = false
is_written w (Reply.ok done) = if w.marking_fails then false else true

module _ {F J : Type 0} where
  -- Whether the Secret was written and marked as synced, and the call.
  abbrev pub write_built :
      World J → ℕ → String → Secret.Answer (List (String × String)) → Bool × List (Effect F)
  write_built w room owner (Secret.err e) = (false, [])
  write_built w room owner (Secret.ok contents) = (
    is_written w w.secret_applied,
    Effect.write_secret (record { room_id = room; contents = contents; owner = some owner }) ∷ [],
  )

module _ {F J : Type 0} (to_json : List (ℤ × String) → String) where
  unfoldable pub apply_room_secret :
      World J
      → ℕ
      → SlotAuth × Option String
      → RoomSecrets
      → List Slot
      → String
      → Bool × List (Effect F)
  unfolding build
  apply_room_secret w room (slot_auth, password) secrets slots owner =
      write_built w room owner (build to_json slot_auth password secrets (map to_secret slots))

  -- The match on the Deployment that is read.
  abbrev pub rotate_owned :
      World J
      → ℕ
      → ℕ
      → SlotAuth × Option String
      → RoomSecrets
      → List Slot
      → Reply (Option RoomDeployment)
      → Outcome × List (Effect F)
  rotate_owned w room n mode secrets slots (Reply.err e) = (failing Why.unreadable_deployment, [])
  rotate_owned w room n mode secrets slots (Reply.ok none) = (failing Why.deployment_gone, [])
  rotate_owned w room n mode secrets slots (Reply.ok (some d)) =
      after_secret w n slots (apply_room_secret w room mode secrets slots d.uid)

  -- The match on the three reads.
  abbrev pub rotate_read :
      World J
      → ℕ
      → ℕ
      → Option (SlotAuth × Option String)
      → Option RoomSecrets
      → Option (List Slot)
      → Outcome × List (Effect F)
  rotate_read w room n (some mode) (some secrets) (some slots) =
      rotate_owned w room n mode secrets slots w.deployment
  rotate_read w room n _ _ _ = (failing Why.unreadable_room, [])

  unfoldable pub rotate : World J → ℕ → ℕ → Outcome × List (Effect F)
  unfolding apply_room_secret push_password
  rotate w room n = rotate_read w room n w.room w.secrets w.slots

unfoldable pub passthrough : {F J : Type 0} → World J → RoomCommand → Outcome × List (Effect F)
unfolding disposition said
passthrough w command = (
  elim (said (w.asked command)) [
    | Said.answer output ↦ record {
      state = disposition_state Disposition.answered;
      result = some output;
      error = none;
    }
    | Said.error e ↦ record {
      state = disposition_state (disposition e);
      result = none;
      error = some (Why.room_failed e);
    }
  ],
  Effect.send command ∷ [],
)

module _ {F J : Type 0} (decode : J → Option (List (Rule F)))
    (to_json : List (ℤ × String) → String) where
  abbrev pub by_command : World J → ℕ → RoomCommand → Outcome × List (Effect F)
  by_command w room (RoomCommand.rotate_password n) = rotate to_json w room n
  by_command w room (RoomCommand.apply_filters slot) = push_filter decode w slot
  by_command w room command = passthrough w command

  unfoldable pub execute : World J → Row RoomCommand → Outcome × List (Effect F)
  unfolding reachable rotate push_filter passthrough
  execute w claimed =
      if w.commands
      then elim (reachable w) [
        | none ↦ (rejecting Why.not_running, [])
        | some endpoint ↦ by_command w claimed.room_id claimed.command
      ]
      else (rejecting Why.too_old, [])
