-- ===== src/Steps/Writes.antt =====
-- The statements on the row that each step of puna-orchestrator/src/steps.rs makes, as a relation, and
-- the programs of Steps.Execute, which keep what these statements keep.
pub mod Moves
use puna.Common.{
  ℕ, Bool, true, false, Option, some, String, List, [], ◌≡◌, refl, is_some, Bool-cases, inl, inr,
  arith,
}
use puna.Plan.Decide.{Step, IdleReason}
use puna.Steps.Row.{RoomRow, Advertised}
use puna.Steps.Row
use puna.Steps.Execute
use puna.Steps.Execute.{
  World, Outcome, Tried, D, ◌>>=◌, ◌>>◌, other!, update!, try_update!, pure, execute, Rendered,
  Allocated,
}
use puna.Steps.Keeps.{
  Keeps, keeps, kept_by, Within-row, Within, Keeps-bind, Keeps-pure, Keeps-transaction, Keeps-other,
  Keeps-try_update, Keeps-update, Keeps-attempt_or_broke, Keeps-is_wanted, Keeps-remove_row,
  Keeps-fail_with, Keeps-run_start,
}
use puna.Apply.{Started, RoomSpec, ApplyError, ClusterError}
use puna.Apply

-- `Writes next row written`: a statement of the step `next` may turn `row` into `written`.
pub data Writes : Step → RoomRow → RoomRow → Type 0 where
  provisioned : {r r' : RoomRow} (now : ℕ) → r' ≡ Row.provisioned now r → Writes Step.provision r r'
  recorded :
      {r r' : RoomRow} (uid hash : String)
      → r' ≡ Row.record_deployment uid hash r
      → Writes Step.start r r'
  started :
      {r r' : RoomRow} (now : ℕ) (a : Advertised)
      → r' ≡ Row.starting now a r
      → Writes Step.start r r'
  answered : {r r' : RoomRow} → r' ≡ Row.clear_redeploy_request r → Writes Step.start r r'
  abandoned : {r r' : RoomRow} (now : ℕ) → r' ≡ Row.clear_deployment now r → Writes Step.start r r'
  failed :
      {r r' : RoomRow} (now : ℕ) (e : String)
      → Row.failed now e r ≡ some r'
      → Writes Step.start r r'
  backing_off : {r r' : RoomRow} (at : ℕ) → r' ≡ Row.backing_off at r → Writes Step.start r r'
  given_up :
      {r r' : RoomRow} (now : ℕ) (e : String)
      → Row.failed now e r ≡ some r'
      → Writes Step.fail_start r r'
  delayed : {r r' : RoomRow} (at : ℕ) → r' ≡ Row.backing_off at r → Writes Step.fail_start r r'
  recreated :
      {r r' : RoomRow} (now : ℕ) → r' ≡ Row.clear_deployment now r → Writes Step.recreate r r'
  satisfied : {r r' : RoomRow} → r' ≡ Row.clear_redeploy_request r → Writes Step.recreate r r'
  running : {r r' : RoomRow} (now : ℕ) → r' ≡ Row.mark_running now r → Writes Step.mark_running r r'
  counted :
      {r r' : RoomRow} (now : ℕ)
      → Row.bump_not_ready false now r ≡ some r'
      → Writes Step.not_ready r r'
  degraded :
      {r r' : RoomRow} (now : ℕ)
      → Row.bump_not_ready true now r ≡ some r'
      → Writes Step.mark_degraded r r'
  idle :
      {r r' : RoomRow} (now : ℕ) (reason : IdleReason)
      → r' ≡ Row.clear_deployment now r
      → Writes (Step.mark_idle reason) r r'
  stopping : {r r' : RoomRow} (now : ℕ) → r' ≡ Row.stopping now r → Writes Step.stop r r'
  retried : {r r' : RoomRow} (now : ℕ) → r' ≡ Row.retrying now r → Writes Step.retry r r'
  reaped : {r r' : RoomRow} (now : ℕ) → r' ≡ Row.reaped now r → Writes Step.reap r r'
  deleting : {r r' : RoomRow} (now : ℕ) → r' ≡ Row.deleting now r → Writes Step.delete r r'

-- A test of the row that every statement of a step keeps.
abbrev pub Stable : Step → (RoomRow → Bool) → Type 0
Stable next p = (r r' : RoomRow) → Writes next r r' → p r ≡ true → p r' ≡ true

module _ (w : World) (p : RoomRow → Bool) where
  unchanged : Within p p
  unchanged r e = e

  finished : (o : Outcome) → Keeps p p (pure o)
  finished o = Keeps-pure p p o unchanged

  -- A program after a statement that leaves the row.
  past : {m : D Outcome} → Keeps p p m → Keeps p p (other! w >> m)
  past h = Keeps-bind (Keeps-other w p) (λ _. h) unchanged

  ended : Keeps p p (other! w >> pure Outcome.done)
  ended = past (finished Outcome.done)

  -- A statement on the row, and a program after it.
  by_update :
      {m : D Outcome} (f : ℕ → RoomRow → RoomRow)
      → ((now : ℕ) (r : RoomRow) → p r ≡ true → p (f now r) ≡ true)
      → Keeps p p m
      → Keeps p p (update! w f >> m)
  by_update f h rest = Keeps-bind (Keeps-update w p p f unchanged h) (λ _. rest) unchanged

  claim-Stable : (b : Bool) → Stable Step.provision p → Keeps p p (Execute.claim_directory w b)
  claim-Stable false h = finished _
  claim-Stable true h =
      past (by_update Row.provisioned (λ now r. h r _ (Writes.provisioned now refl)) ended)

  provision-Stable : (b : Bool) → Stable Step.provision p → Keeps p p (Execute.provision w b)
  unfolding Execute.provision
  provision-Stable false h = past ended
  provision-Stable true h =
      past (past (Keeps-transaction p p _ unchanged (past (claim-Stable w.takes_lock h))))

  removed : (b : Bool) → Keeps p p (Execute.trash_and_remove w b)
  removed false = finished _
  removed true = past (Keeps-bind (Keeps-remove_row w p) (λ _. finished _) unchanged)

  gone-Stable : (b : Bool) → Stable Step.delete p → Keeps p p (Execute.once_gone w b)
  gone-Stable true h =
      by_update Row.deleting (λ now r. h r _ (Writes.deleting now refl)) (finished _)
  gone-Stable false h = Keeps-transaction p p _ unchanged (past (removed w.takes_lock))

  delete-Stable : (room : ℕ) → Stable Step.delete p → Keeps p p (Execute.delete w room)
  unfolding Execute.delete
  delete-Stable room h = past (
      Keeps-attempt_or_broke w _
        (λ _. Keeps-attempt_or_broke w _ (λ left. gone-Stable (is_some left) h) unchanged)
        unchanged)

  noted : (b : Bool) → Keeps p p (Execute.note_reap w b)
  noted false = finished _
  noted true = ended

  reap-Stable : Stable Step.reap p → Keeps p p (Execute.reap w)
  unfolding Execute.reap
  reap-Stable h = past (
      Keeps-bind (Keeps-is_wanted w p)
        (λ marked. by_update Row.reaped (λ now r. h r _ (Writes.reaped now refl)) (noted marked))
        unchanged)

  -- A failure, in a step that counts it and sets the delay.
  fail-Stable :
      (next : Step) (room : ℕ) (error : String)
      → Stable next p
      → ((now : ℕ) (r r' : RoomRow) → Row.failed now error r ≡ some r' → Writes next r r')
      → ((at : ℕ) (r : RoomRow) → Writes next r (Row.backing_off at r))
      → Keeps p p (Execute.fail_with w room error)
  fail-Stable next room error h hf hb =
      Keeps-fail_with w p room error (λ now r r' k e. h r r' (hf now r r' e) k)
        (λ at r k. h r _ (hb at r) k)

  start_fails :
      (room : ℕ) (error : String) → Stable Step.start p → Keeps p p (Execute.fail_with w room error)
  start_fails room error h =
      fail-Stable Step.start room error h (λ now r r' e. Writes.failed now error e)
        (λ at r. Writes.backing_off at refl)

  start_failed :
      (room : ℕ) (error : String)
      → Stable Step.start p
      → Keeps p p (Execute.fail_with w room error >> pure Outcome.done)
  start_failed room error h = Keeps-bind (start_fails room error h) (λ _. finished _) unchanged

  abandons :
      {m : D Outcome}
      → Stable Step.start p
      → Keeps p p m
      → Keeps p p (update! w Row.clear_deployment >> m)
  abandons h rest = by_update Row.clear_deployment (λ now r. h r _ (Writes.abandoned now refl)) rest

  quarantine : (b : Bool) → Keeps p p (Execute.quarantine_collision w b)
  quarantine true = Keeps-other w p
  quarantine false = Keeps-pure p p tt unchanged

  started-Stable :
      (room base_port : ℕ) (spec : RoomSpec) (answer : Apply.Result Started)
      → Stable Step.start p
      → Keeps p p (Execute.started w room base_port spec answer)
  unfolding Execute.started
  started-Stable room base_port spec (Apply.Result.done (Started.converged uid ip)) h =
      by_update (λ now. Row.starting now (Execute.advertise w base_port spec.wants_filtered))
        (λ now r. h r _ (Writes.started now _ refl))
        (by_update (λ now. Row.clear_redeploy_request) (λ now r. h r _ (Writes.answered refl))
          ended)
  started-Stable room base_port spec (Apply.Result.done Started.recreating) h =
      abandons h (finished _)
  started-Stable room base_port spec (Apply.Result.done (Started.address_mismatch observed)) h =
      past (abandons h ended)
  started-Stable room base_port spec (Apply.Result.done (Started.address_refused refusal)) h =
      past (
        Keeps-bind (quarantine (Execute.is_port_collision w refusal)) (λ _. start_fails room _ h)
          unchanged)
  started-Stable room base_port spec
        (Apply.Result.failed (ApplyError.cluster (ClusterError.fatal e))) h =
      start_failed room _ h
  started-Stable room base_port spec (Apply.Result.done Started.awaiting_address) h = finished _
  started-Stable room base_port spec (Apply.Result.done Started.awaiting_teardown) h = finished _
  started-Stable room base_port spec
        (Apply.Result.failed (ApplyError.cluster (ClusterError.transient e))) h =
      finished _
  started-Stable room base_port spec
        (Apply.Result.failed (ApplyError.cluster (ClusterError.already_exists e))) h =
      finished _
  started-Stable room base_port spec (Apply.Result.failed (ApplyError.record_failed e)) h =
      finished _
  started-Stable room base_port spec (Apply.Result.failed (ApplyError.vanished e)) h = finished _

  launch-Stable :
      (room base_port : ℕ) (r : Rendered)
      → Stable Step.start p
      → Keeps p p (Execute.launch w room base_port r)
  unfolding Execute.launch
  launch-Stable room base_port Rendered.gone h = finished _
  launch-Stable room base_port (Rendered.incomplete error) h = start_failed room error h
  launch-Stable room base_port (Rendered.ready spec secret) h =
      Keeps-bind (Keeps-run_start w p _ (λ uid hash r. h r _ (Writes.recorded uid hash refl)))
        (λ answer. started-Stable room base_port spec answer h) unchanged

  with_port-Stable :
      (room : ℕ) (a : Allocated) → Stable Step.start p → Keeps p p (Execute.with_port w room a)
  unfolding Execute.with_port
  with_port-Stable room Allocated.locked h = finished _
  with_port-Stable room (Allocated.refused error) h = start_failed room error h
  with_port-Stable room (Allocated.port base_port) h =
      launch-Stable room base_port (w.rendered base_port) h

  -- A step changes the row only by its statements, wherever it stops: it keeps what they keep.
  pub execute-Stable : (next : Step) (room : ℕ) → Stable next p → Keeps p p (execute w next room)
  unfolding execute
  execute-Stable Step.provision room h = provision-Stable w.has_generation h
  execute-Stable Step.start room h = past (with_port-Stable room w.allocated h)
  execute-Stable Step.fail_start room h =
      fail-Stable Step.fail_start room _ h (λ now r r' e. Writes.given_up now _ e)
        (λ at r. Writes.delayed at refl)
  execute-Stable Step.recreate room h = past (
      Keeps-attempt_or_broke w _
        (λ _.
          by_update Row.clear_deployment (λ now r. h r _ (Writes.recreated now refl))
            (by_update (λ now. Row.clear_redeploy_request) (λ now r. h r _ (Writes.satisfied refl))
              (finished _)))
        unchanged)
  execute-Stable Step.mark_running room h =
      past (by_update Row.mark_running (λ now r. h r _ (Writes.running now refl)) ended)
  execute-Stable Step.not_ready room h = past (
      Keeps-bind
        (Keeps-try_update w p p (Row.bump_not_ready false) unchanged
          (λ now r r' k e. h r r' (Writes.counted now e) k))
        (λ _. finished _) unchanged)
  execute-Stable Step.mark_degraded room h = past (
      Keeps-bind
        (Keeps-try_update w p p (Row.bump_not_ready true) unchanged
          (λ now r r' k e. h r r' (Writes.degraded now e) k))
        (λ _. ended) unchanged)
  execute-Stable (Step.mark_idle reason) room h =
      past (by_update Row.clear_deployment (λ now r. h r _ (Writes.idle now reason refl)) ended)
  execute-Stable Step.stop room h = past (
      Keeps-attempt_or_broke w _
        (λ _. by_update Row.stopping (λ now r. h r _ (Writes.stopping now refl)) ended) unchanged)
  execute-Stable Step.reap room h = reap-Stable h
  execute-Stable Step.retry room h =
      past (by_update Row.retrying (λ now r. h r _ (Writes.retried now refl)) ended)
  execute-Stable Step.delete room h = delete-Stable room h
