-- ===== src/Steps/Handlers.antt =====
-- What each handler of Steps.Execute keeps true of the row, from what its step is planned for.
use puna.Common.{ℕ, Bool, true, false, ◌≡◌, refl, arith}
use puna.Plan.Decide.{Step}
use puna.Steps.Row.{RoomRow}
use puna.Steps.Row
use puna.Steps.Execute.{World, Outcome, execute}
use puna.Steps.Keeps.{
  Keeps, keeps, kept_by, Within-row, Keeps-bind, Keeps-pure, Keeps-other, Keeps-try_update,
}
use puna.Steps.Invariant.{sane, before, before-sane, not_ready-sane, degraded-sane}
use puna.Steps.Writes.{Writes, Stable, execute-Stable}

-- A step that counts a sweep: its statement is for one more sweep, and not for another after it.
abbrev counts : Step → Bool
counts Step.not_ready = true
counts Step.mark_degraded = true
counts _ = false

-- What a step is planned for, each of its statements keeps.
before-Stable : (next : Step) → counts next ≡ false → Stable next (before next)
unfolding sane Row.provisioned Row.record_deployment Row.starting Row.clear_redeploy_request
    Row.clear_deployment Row.failed Row.backing_off Row.mark_running Row.bump_not_ready Row.stopping
    Row.retrying Row.reaped Row.deleting
before-Stable _ c r r' (Writes.provisioned now e) h = ground arith
before-Stable _ c r r' (Writes.recorded uid hash e) h = ground arith
before-Stable _ c r r' (Writes.started now a e) h = ground arith
before-Stable _ c r r' (Writes.answered e) h = ground arith
before-Stable _ c r r' (Writes.abandoned now e) h = ground arith
before-Stable _ c r r' (Writes.failed now x e) h = ground arith
before-Stable _ c r r' (Writes.backing_off at e) h = ground arith
before-Stable _ c r r' (Writes.given_up now x e) h = ground arith
before-Stable _ c r r' (Writes.delayed at e) h = ground arith
before-Stable _ c r r' (Writes.recreated now e) h = ground arith
before-Stable _ c r r' (Writes.satisfied e) h = ground arith
before-Stable _ c r r' (Writes.running now e) h = ground arith
before-Stable _ c r r' (Writes.counted now e) h = ground arith
before-Stable _ c r r' (Writes.degraded now e) h = ground arith
before-Stable _ c r r' (Writes.idle now reason e) h = ground arith
before-Stable _ c r r' (Writes.stopping now e) h = ground arith
before-Stable _ c r r' (Writes.retried now e) h = ground arith
before-Stable _ c r r' (Writes.reaped now e) h = ground arith
before-Stable _ c r r' (Writes.deleting now e) h = ground arith

module _ (w : World) where
  -- A step with statements that keep what it is planned for leaves a sane row.
  stable_keeps :
      (next : Step) (room : ℕ)
      → counts next ≡ false
      → Keeps (before next) sane (execute w next room)
  stable_keeps next room c = keeps (λ s e.
      Within-row (before next) sane (before-sane next) (execute w next room s).1.row
        (kept_by (execute-Stable w (before next) next room (before-Stable next c)) s e))

  -- From what a step is planned for, its handler leaves a sane row or none.
  pub execute-Keeps : (next : Step) (room : ℕ) → Keeps (before next) sane (execute w next room)
  unfolding execute
  execute-Keeps Step.not_ready room =
      Keeps-bind (Keeps-other w (before Step.not_ready))
        (λ _.
          Keeps-bind
            (Keeps-try_update w (before Step.not_ready) sane (Row.bump_not_ready false)
              (before-sane Step.not_ready) not_ready-sane)
            (λ _. Keeps-pure sane sane Outcome.done (λ row e. e)) (λ row e. e))
        (before-sane Step.not_ready)
  execute-Keeps Step.mark_degraded room =
      Keeps-bind (Keeps-other w (before Step.mark_degraded))
        (λ _.
          Keeps-bind
            (Keeps-try_update w (before Step.mark_degraded) sane (Row.bump_not_ready true)
              (before-sane Step.mark_degraded) degraded-sane)
            (λ _.
              Keeps-bind (Keeps-other w sane) (λ _. Keeps-pure sane sane Outcome.done (λ row e. e))
                (λ row e. e))
            (λ row e. e))
        (before-sane Step.mark_degraded)
  execute-Keeps Step.provision room = stable_keeps Step.provision room refl
  execute-Keeps Step.start room = stable_keeps Step.start room refl
  execute-Keeps Step.fail_start room = stable_keeps Step.fail_start room refl
  execute-Keeps Step.recreate room = stable_keeps Step.recreate room refl
  execute-Keeps Step.mark_running room = stable_keeps Step.mark_running room refl
  execute-Keeps (Step.mark_idle reason) room = stable_keeps (Step.mark_idle reason) room refl
  execute-Keeps Step.stop room = stable_keeps Step.stop room refl
  execute-Keeps Step.reap room = stable_keeps Step.reap room refl
  execute-Keeps Step.retry room = stable_keeps Step.retry room refl
  execute-Keeps Step.delete room = stable_keeps Step.delete room refl
