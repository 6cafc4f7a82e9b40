-- ===== src/Steps/Execute.antt =====
-- Carrying one planned step out: `execute` of puna-orchestrator/src/steps.rs and its handlers.
-- Every statement and every call outside the row is numbered and may fail, and the statements before
-- it stand then, save in a transaction. Left out, as no handler acts on their answers: metrics, the
-- log, the request that a room shut down, the search for the holder of a contested port, and the
-- locks and filters sent to a running room.
use puna.Common.{
  ℕ, suc, ◌+◌, Bool, true, false, ◌&&◌, str_eq, Option, none, some, String, List, [], ◌∷◌,
  if◌then◌else◌, seconds, is_some,
}
use puna.Plan.Decide.{Step}
use puna.Model.DesiredState.{is_running}
use puna.Steps.Row
use puna.Steps.Row.{RoomRow, Advertised}
use puna.Steps.Backoff.{retry_delay}
use puna.Apply.{
  Cluster, Call, Started, StartRequest, RoomSpec, ApplyError, ClusterError, IpamRefusal,
}
use puna.Apply
use mathlib.Core.Option

pub data Outcome : Type 0 where
  done skipped_locked : Outcome

-- The answer of the port allocator under the room's lock: a base port, no lock, or an error.
pub data Allocated : Type 0 where
  port : ℕ → Allocated
  locked : Allocated
  refused : String → Allocated

-- The answer of `render_spec`.
pub data Rendered : Type 0 where
  ready : RoomSpec → List (String × String) → Rendered
  gone : Rendered
  incomplete : String → Rendered

-- What a handler asks of everything but the row. `message` is
-- the text that `last_error` shows, `contains` is `str::contains`.
pub record World : Type 0 where
  pub fails : ℕ → Bool
  pub now : ℕ → ℕ
  pub local_now : ℕ
  pub cluster : Cluster
  pub lb_ip : String
  pub advertise_host : String
  pub takes_lock : Bool
  pub has_generation : Bool
  pub allocated : Allocated
  pub rendered : ℕ → Rendered
  pub message : ApplyError → String
  pub contains : String → String → Bool
  pub refusal_message : IpamRefusal → String

-- The row, if there is one, the calls made of the cluster, and the number of the next statement.
pub record Session : Type 0 where
  pub row : Option RoomRow
  pub calls : List Call
  pub statement : ℕ

pub data Tried (A : Type 0) : Type 0 where
  ok : A → Tried A
  broke : Tried A

abbrev pub D : Type 0 → Type 0
D A = Session → Tried A × Session

infixl 5 ◌>>=◌ ◌>>◌
unfoldable pub ◌>>=◌ : {A B : Type 0} → D A → (A → D B) → D B
◌>>=◌ m f s = let (r, t) = m s in elim r [ Tried.ok a ↦ f a t | Tried.broke ↦ (Tried.broke, t) ]

abbrev pub ◌>>◌ : {A B : Type 0} → D A → D B → D B
m >> k = m >>= λ _. k

abbrev pub pure : {A : Type 0} → A → D A
pure a s = (Tried.ok a, s)

-- An error undoes what the statements in a transaction wrote.
abbrev pub transaction : {A : Type 0} → D A → D A
transaction m s =
    let (r, t) = m s in
    elim r [ Tried.ok a ↦ (Tried.ok a, t) | Tried.broke ↦ (Tried.broke, record t { row = s.row }) ]

-- A statement on the row; without a row it changes nothing.
abbrev pub write_row : (RoomRow → Option RoomRow) → Session → Tried (Unit {0}) × Session
write_row f s = elim s.row [
  | none ↦ (Tried.ok tt, record s { statement = suc s.statement })
  | some row ↦ elim (f row) [
    | none ↦ (Tried.broke, record s { statement = suc s.statement })
    | some written ↦ (Tried.ok tt, record s { row = some written; statement = suc s.statement })
  ]
]

-- The calls of `RowRecorder` among the calls made, oldest first, written to the row.
abbrev pub write_record : Cluster → Call → List Call → Option RoomRow → Option RoomRow
write_record c (Call.record_uid room uid hash) earlier row =
    if is_some (c.on_record earlier room uid hash)
    then row
    else Option.map (Row.record_deployment uid hash) row
write_record c _ earlier row = row

unfoldable pub recorded_row : Cluster → List Call → Option RoomRow → Option RoomRow
recorded_row c [] row = row
recorded_row c (call ∷ earlier) row = write_record c call earlier (recorded_row c earlier row)

-- `RETURNING failure_count`, 1 without a row.
abbrev pub failures_of : Option RoomRow → ℕ
failures_of none = 1
failures_of (some row) = row.failure_count

-- Whether the update of `reap` finds its row.
abbrev pub wants_running : Option RoomRow → Bool
wants_running none = false
wants_running (some row) = is_running row.desired_state

module _ (w : World) where
  -- A statement or call with no effect on the row.
  abbrev pub other! : D (Unit {0})
  other! s =
      if w.fails s.statement
      then (Tried.broke, record s { statement = suc s.statement })
      else (Tried.ok tt, record s { statement = suc s.statement })

  -- A statement on the row that may meet the bound of an INTEGER column.
  abbrev pub try_update! : (ℕ → RoomRow → Option RoomRow) → D (Unit {0})
  try_update! f s =
      if w.fails s.statement
      then (Tried.broke, record s { statement = suc s.statement })
      else write_row (f (w.now s.statement)) s

  abbrev pub update! : (ℕ → RoomRow → RoomRow) → D (Unit {0})
  update! f = try_update! (λ now row. some (f now row))

  abbrev pub read_failures : D ℕ
  read_failures s = (Tried.ok (failures_of s.row), s)

  -- A program of the applier, whose error the caller sees, and whose calls are remembered.
  abbrev pub attempt! : {A : Type 0} → Apply.M A → D (Apply.Result A)
  attempt! m s = let (r, log) = m s.calls in (Tried.ok r, record s { calls = log })

  -- `?` on such a program.
  abbrev pub or_broke : {A : Type 0} → Apply.Result A → D A
  or_broke (Apply.Result.done a) = pure a
  or_broke (Apply.Result.failed e) = λ s. (Tried.broke, s)

  -- The start, with the recorder's writes to the row.
  abbrev pub run_start! : StartRequest → D (Apply.Result Started)
  run_start! q s =
      let (r, log) = Apply.ensure_room_running w.cluster q [] in
      (Tried.ok r, record s { row = recorded_row w.cluster log s.row; calls = log })

  -- `fail_with`: the Deployment goes first, and whether it went makes no difference.
  unfoldable pub fail_with : ℕ → String → D Outcome
  unfolding retry_delay
  fail_with room error = do
    attempt! (Apply.delete_deployment! w.cluster room)
    other!
    try_update! (λ now. Row.failed now error)
    failure_count ← read_failures
    update! (λ now. Row.backing_off (w.local_now + seconds (retry_delay failure_count room)))
    other!
    pure Outcome.done

  -- The transaction of `provision`, once it has asked for the lock.
  abbrev pub claim_directory : Bool → D Outcome
  claim_directory false = pure Outcome.skipped_locked
  claim_directory true = do other!; update! Row.provisioned; other!; pure Outcome.done

  unfoldable pub provision : Bool → D Outcome
  provision false = do other!; other!; pure Outcome.done
  provision true = do other!; other!; transaction (other! >> claim_directory w.takes_lock)

  unfoldable pub recreate : ℕ → D Outcome
  recreate room = do
    other!
    answer ← attempt! (Apply.delete_deployment! w.cluster room)
    or_broke answer
    update! Row.clear_deployment
    update! (λ now. Row.clear_redeploy_request)
    pure Outcome.done

  unfoldable pub mark_running : D Outcome
  mark_running = do other!; update! Row.mark_running; other!; pure Outcome.done

  unfoldable pub bump_not_ready : Bool → D Outcome
  bump_not_ready true = do other!; try_update! (Row.bump_not_ready true); other!; pure Outcome.done
  bump_not_ready false = do other!; try_update! (Row.bump_not_ready false); pure Outcome.done

  unfoldable pub mark_idle : D Outcome
  mark_idle = do other!; update! Row.clear_deployment; other!; pure Outcome.done

  unfoldable pub stop : ℕ → D Outcome
  stop room = do
    other!
    answer ← attempt! (Apply.delete_deployment! w.cluster room)
    or_broke answer
    update! Row.stopping
    other!
    pure Outcome.done

  unfoldable pub retry : D Outcome
  retry = do other!; update! Row.retrying; other!; pure Outcome.done

  -- `reap`, which records the event only when its update wrote the row.
  abbrev pub note_reap : Bool → D Outcome
  note_reap false = pure Outcome.done
  note_reap true = other! >> pure Outcome.done

  abbrev pub is_wanted : D Bool
  is_wanted s = (Tried.ok (wants_running s.row), s)

  unfoldable pub reap : D Outcome
  reap = do other!; marked ← is_wanted; update! Row.reaped; note_reap marked

  -- The transaction of `delete`, once it has asked for the lock.
  abbrev pub remove_row : Session → Tried (Unit {0}) × Session
  remove_row s =
      if w.fails s.statement
      then (Tried.broke, record s { statement = suc s.statement })
      else (Tried.ok tt, record s { row = none; statement = suc s.statement })

  abbrev pub trash_and_remove : Bool → D Outcome
  trash_and_remove false = pure Outcome.skipped_locked
  trash_and_remove true = do other!; remove_row; pure Outcome.done

  -- The rest of `delete`, by whether the Deployment is still there.
  abbrev pub once_gone : Bool → D Outcome
  once_gone true = update! Row.deleting >> pure Outcome.done
  once_gone false = transaction (other! >> trash_and_remove w.takes_lock)

  unfoldable pub delete : ℕ → D Outcome
  delete room = do
    other!
    answer ← attempt! (Apply.teardown_room w.cluster room)
    or_broke answer
    found ← attempt! (Apply.get_deployment! w.cluster room)
    left ← or_broke found
    once_gone (is_some left)

  -- `IpamRefusal::is_port_collision`.
  abbrev pub is_port_collision : IpamRefusal → Bool
  is_port_collision refusal =
      str_eq refusal.reason "already_allocated_incompatible_service"
      && w.contains refusal.message "same port and protocol"

  -- A collision takes a statement more, which quarantines the pair.
  abbrev pub quarantine_collision : Bool → D (Unit {0})
  quarantine_collision true = other!
  quarantine_collision false = pure tt

  -- What a start that converged advertises.
  abbrev pub advertise : ℕ → Bool → Advertised
  advertise base_port wants_filtered = record {
    host = w.advertise_host;
    port = base_port;
    filtered_port = if wants_filtered then some (base_port + 1) else none;
  }

  -- The match on what the applier answered.
  unfoldable pub started : ℕ → ℕ → RoomSpec → Apply.Result Started → D Outcome
  unfolding fail_with
  started room base_port spec (Apply.Result.done (Started.converged uid ip)) = do
    update! (λ now. Row.starting now (advertise base_port spec.wants_filtered))
    update! (λ now. Row.clear_redeploy_request)
    other!
    pure Outcome.done
  started room base_port spec (Apply.Result.done Started.awaiting_address) = pure Outcome.done
  started room base_port spec (Apply.Result.done Started.recreating) =
      update! Row.clear_deployment >> pure Outcome.done
  started room base_port spec (Apply.Result.done Started.awaiting_teardown) = pure Outcome.done
  started room base_port spec (Apply.Result.done (Started.address_mismatch observed)) = do
    other!
    update! Row.clear_deployment
    other!
    pure Outcome.done
  started room base_port spec (Apply.Result.done (Started.address_refused refusal)) = do
    other!
    quarantine_collision (is_port_collision refusal)
    fail_with room (w.refusal_message refusal)
  started room base_port spec (Apply.Result.failed (ApplyError.cluster (ClusterError.fatal e))) =
      fail_with room (w.message (ApplyError.cluster (ClusterError.fatal e))) >> pure Outcome.done
  started room base_port spec (Apply.Result.failed e) = pure Outcome.done

  -- From the answer of `render_spec` on.
  unfoldable pub launch : ℕ → ℕ → Rendered → D Outcome
  unfolding started fail_with
  launch room base_port Rendered.gone = pure Outcome.done
  launch room base_port (Rendered.incomplete error) = fail_with room error >> pure Outcome.done
  launch room base_port (Rendered.ready spec secret) = do
    answer ← run_start! (record { spec = spec; secret = secret; lb_ip = w.lb_ip })
    started room base_port spec answer

  -- From the answer of the port allocator on.
  unfoldable pub with_port : ℕ → Allocated → D Outcome
  unfolding launch fail_with
  with_port room Allocated.locked = pure Outcome.skipped_locked
  with_port room (Allocated.refused error) = fail_with room error >> pure Outcome.done
  with_port room (Allocated.port base_port) = launch room base_port (w.rendered base_port)

  unfoldable pub start : ℕ → D Outcome
  unfolding with_port
  start room = other! >> with_port room w.allocated

  unfoldable pub execute : Step → ℕ → D Outcome
  unfolding provision recreate mark_running bump_not_ready mark_idle stop retry reap delete start
      fail_with
  execute Step.provision room = provision w.has_generation
  execute Step.start room = start room
  execute Step.recreate room = recreate room
  execute Step.mark_running room = mark_running
  execute Step.not_ready room = bump_not_ready false
  execute Step.mark_degraded room = bump_not_ready true
  execute (Step.mark_idle reason) room = mark_idle
  execute Step.stop room = stop room
  execute Step.reap room = reap
  execute Step.retry room = retry
  execute Step.delete room = delete room
  execute Step.fail_start room =
      fail_with room "the pod did not become ready before the progress deadline"
