-- ===== src/Steps/Failing.antt =====
-- How a room fails: `fail_with` of puna-orchestrator/src/steps.rs.
use puna.Common.{
  ℕ, suc, ◌+◌, ◌≤◌, ◌<◌, ◌≡◌, refl, true, false, Option, none, some, String, List, ◌∷◌, ℤ, arith,
  seconds, ap, ◌∙◌, sym,
}
use puna.Model.RoomState.{RoomState}
use puna.Apply.{Call}
use puna.Apply
use puna.Model.DesiredState.{is_deleted}
use puna.Plan.View.{RoomView, RoomDeployment}
use puna.Plan.Decide.{step_for, spec_changed}
use puna.Steps.Row.{RoomRow, failed, backing_off}
use puna.Steps.Execute.{
  World, Session, Tried, Outcome, ◌>>=◌, D, other!, try_update!, update!, attempt!, read_failures,
  fail_with,
}
use puna.Steps.Backoff.{retry_delay, retry_delay_bounds}

-- A row, and the statements from the n-th on.
abbrev pub at_row : RoomRow → List Call → ℕ → Session
at_row row calls n = record { row = some row; calls = calls; statement = n }

-- The row once the failure is counted.
abbrev pub counted : ℕ → String → RoomRow → RoomRow
counted now error row = record row {
  state = RoomState.failed;
  state_changed_at = now;
  failure_count = row.failure_count + 1;
  last_error = some error;
  advertised = none;
}

failed-counted :
    (now : ℕ) (error : String) (row : RoomRow)
    → row.failure_count + 1 < 2147483648
    → failed now error row ≡ some (counted now error row)
unfolding failed
failed-counted now error row h = ground arith

-- A program that goes on after a part of it that did not fail.
pub go_on :
    {A B : Type 0} (m : D A) (f : A → D B) (s t : Session) (a : A) (z : Tried B × Session)
    → m s ≡ (Tried.ok a, t)
    → f a t ≡ z
    → (m >>= f) s ≡ z
unfolding ◌>>=◌
go_on m f s t a z e e' = ap (λ x. ((λ _. x) >>= f) s) e ∙ e'

pub other-quiet :
    (w : World) (s : Session)
    → w.fails s.statement ≡ false
    → other! w s ≡ (Tried.ok tt, record s { statement = suc s.statement })
other-quiet w s e = rw (e) refl

pub update-quiet :
    (w : World) (f : ℕ → RoomRow → Option RoomRow) (row written : RoomRow) (calls : List Call)
    (n : ℕ)
    → w.fails n ≡ false
    → f (w.now n) row ≡ some written
    → try_update! w f (at_row row calls n) ≡ (Tried.ok tt, at_row written calls (suc n))
update-quiet w f row written calls n e e' = rw (e, e') refl

-- When a failed room is tried again.
abbrev next_try : World → ℕ → RoomRow → ℕ
next_try w room row = w.local_now + seconds (retry_delay (row.failure_count + 1) room)

fail_with-quiet :
    (w : World) (room : ℕ) (error : String) (row : RoomRow) (calls : List Call) (n : ℕ)
    → ((k : ℕ) → w.fails k ≡ false)
    → row.failure_count + 1 < 2147483648
    → fail_with w room error (at_row row calls n) ≡ (
      Tried.ok Outcome.done,
      at_row
          (backing_off (next_try w room row) (counted (w.now (suc n)) error row))
          (Call.delete_deployment room ∷ calls)
          (suc (suc (suc (suc n)))),
    )
unfolding fail_with
fail_with-quiet w room error row calls n quiet h =
    let calls' = Call.delete_deployment room ∷ calls in
    let row' = counted (w.now (suc n)) error row in
    let row'' = backing_off (next_try w room row) row' in
    go_on (attempt! w (Apply.delete_deployment! w.cluster room)) _ (at_row row calls n)
      (at_row row calls' n) _ _ refl
      (go_on (other! w) _ (at_row row calls' n) (at_row row calls' (suc n)) tt _
        (other-quiet w _ (quiet n))
        (go_on (try_update! w (λ now. failed now error)) _ _ (at_row row' calls' (suc (suc n))) tt _
          (update-quiet w (λ now. failed now error) row row' calls' (suc n) (quiet (suc n))
            (failed-counted _ error row h))
          (go_on (read_failures w) _ (at_row row' calls' (suc (suc n)))
            (at_row row' calls' (suc (suc n))) (row.failure_count + 1) _ refl
            (go_on (update! w (λ now. backing_off (next_try w room row))) _ _
              (at_row row'' calls' (suc (suc (suc n)))) tt _
              (update-quiet w (λ now r. some (backing_off (next_try w room row) r)) row' row''
                calls' (suc (suc n)) (quiet (suc (suc n))) refl)
              (go_on (other! w) _ _ (at_row row'' calls' (suc (suc (suc (suc n))))) tt _
                (other-quiet w _ (quiet (suc (suc (suc n))))) refl)))))

-- A failure none of whose statements fails, of a room that has failed fewer than 2^31 - 1 times,
-- ends with the room failed and without an address, the failure counted once, and the next try
-- between 12 seconds and 12 minutes from now.
pub fail_with-paced :
    (w : World) (room : ℕ) (error : String) (row : RoomRow) (calls : List Call) (n : ℕ)
    → ((k : ℕ) → w.fails k ≡ false)
    → row.failure_count + 1 < 2147483648
    → ((fail_with w room error (at_row row calls n)).0 ≡ Tried.ok Outcome.done)
      × ((after : RoomRow) × ((fail_with w room error (at_row row calls n)).1.row ≡ some after)
          × (after.state ≡ RoomState.failed)
          × (after.advertised ≡ none)
          × (after.failure_count ≡ row.failure_count + 1)
          × ((t : ℕ) × (after.retry_after ≡ some t)
              × (w.local_now + seconds 12 ≤ t)
              × (t ≤ w.local_now + seconds 720)))
unfolding backing_off
fail_with-paced w room error row calls n quiet h =
    let e = fail_with-quiet w room error row calls n quiet h in
    let bounds = retry_delay_bounds (row.failure_count + 1) room in
    (
      ap (λ x. x.0) e,
      (
        backing_off (next_try w room row) (counted (w.now (suc n)) error row),
        ap (λ x. x.1.row) e,
        refl,
        refl,
        refl,
        (next_try w room row, refl, omega arith, omega arith),
      ),
    )

break_off :
    {A B : Type 0} (m : D A) (f : A → D B) (s t : Session)
    → m s ≡ (Tried.broke, t)
    → (m >>= f) s ≡ (Tried.broke, t)
unfolding ◌>>=◌
break_off m f s t e = ap (λ x. ((λ _. x) >>= f) s) e

other-broke :
    (w : World) (f : ℕ → RoomRow → RoomRow) (s : Session)
    → w.fails s.statement ≡ true
    → update! w f s ≡ (Tried.broke, record s { statement = suc s.statement })
other-broke w f s e = rw (e) refl

fail_with-half :
    (w : World) (room : ℕ) (error : String) (row : RoomRow) (calls : List Call) (n : ℕ)
    → w.fails n ≡ false
    → w.fails (suc n) ≡ false
    → w.fails (suc (suc n)) ≡ true
    → row.failure_count + 1 < 2147483648
    → fail_with w room error (at_row row calls n) ≡ (
      Tried.broke,
      at_row
          (counted (w.now (suc n)) error row)
          (Call.delete_deployment room ∷ calls)
          (suc (suc (suc n))),
    )
unfolding fail_with
fail_with-half w room error row calls n a b c h =
    let calls' = Call.delete_deployment room ∷ calls in
    let row' = counted (w.now (suc n)) error row in
    go_on (attempt! w (Apply.delete_deployment! w.cluster room)) _ (at_row row calls n)
      (at_row row calls' n) _ _ refl
      (go_on (other! w) _ (at_row row calls' n) (at_row row calls' (suc n)) tt _ (other-quiet w _ a)
        (go_on (try_update! w (λ now. failed now error)) _ _ (at_row row' calls' (suc (suc n))) tt _
          (update-quiet w (λ now. failed now error) row row' calls' (suc n) b
            (failed-counted _ error row h))
          (go_on (read_failures w) _ (at_row row' calls' (suc (suc n)))
            (at_row row' calls' (suc (suc n))) (row.failure_count + 1) _ refl
            (break_off (update! w (λ now. backing_off (next_try w room row))) _ _ _ (
              other-broke w (λ now. backing_off (next_try w room row))
                (at_row row' calls' (suc (suc n))) c)))))

-- When the statement that writes the next try fails, after the one that writes the failure, a room
-- that had no next try and has failed fewer than 2^31 - 1 times is left failed without one: while no
-- other spec is wanted of it and it is not deleted, no step is planned for it at any time.
pub fail_with-stranded :
    (w : World) (room : ℕ) (error : String) (row after : RoomRow) (calls : List Call) (n : ℕ)
    (view : RoomView) (deployment : Option RoomDeployment) (now : ℕ) (idle_timeout : ℤ)
    → w.fails n ≡ false
    → w.fails (suc n) ≡ false
    → w.fails (suc (suc n)) ≡ true
    → row.failure_count + 1 < 2147483648
    → row.retry_after ≡ none
    → (fail_with w room error (at_row row calls n)).1.row ≡ some after
    → view.state ≡ after.state
    → view.retry_after ≡ after.retry_after
    → spec_changed view.desired_spec_hash view.spec_hash ≡ false
    → is_deleted view.desired ≡ false
    → (after.state ≡ RoomState.failed) × (step_for view deployment now idle_timeout ≡ none)
unfolding step_for
fail_with-stranded w room error row after calls n view deployment now idle_timeout a b c h none_set
      e vs vr same kept =
    let at = sym (ap (λ x. x.1.row) (fail_with-half w room error row calls n a b c h)) ∙ e in
    ground arith
