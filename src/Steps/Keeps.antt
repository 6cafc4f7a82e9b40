-- ===== src/Steps/Keeps.antt =====
-- What the programs of Steps.Execute keep true of the row, wherever they stop.
use puna.Common.{
  ℕ, if◌then◌else◌, is_some, ◌+◌, seconds, Bool, true, false, Option, none, some, String, List, [],
  ◌∷◌, ◌≡◌, refl, Bool-cases, inl, inr, arith,
}
use puna.Steps.Row.{RoomRow, record_deployment, backing_off, failed}
use puna.Steps.Backoff.{retry_delay}
use puna.Steps.Execute.{
  D, Session, Tried, World, ◌>>=◌, pure, transaction, other!, try_update!, update!, attempt!,
  run_start!, recorded_row, write_row, write_record, fail_with, or_broke, Outcome, read_failures,
  is_wanted, remove_row,
}
use puna.Apply.{Call, Cluster, StartRequest}
use puna.Apply

-- A test of the row, which no row passes.
abbrev pub on_row : (RoomRow → Bool) → Option RoomRow → Bool
on_row p none = true
on_row p (some row) = p row

pub data Keeps {A : Type 0} (p q : RoomRow → Bool) (m : D A) : Type 0 where
  keeps : ((s : Session) → on_row p s.row ≡ true → on_row q (m s).1.row ≡ true) → Keeps p q m

pub kept_by :
    {A : Type 0} {p q : RoomRow → Bool} {m : D A}
    → Keeps p q m
    → (s : Session) → on_row p s.row ≡ true
    → on_row q (m s).1.row ≡ true
kept_by (keeps h) = h

abbrev pub Within : (RoomRow → Bool) → (RoomRow → Bool) → Type 0
Within p q = (row : RoomRow) → p row ≡ true → q row ≡ true

pub Within-row :
    (p q : RoomRow → Bool)
    → Within p q
    → (o : Option RoomRow) → on_row p o ≡ true
    → on_row q o ≡ true
Within-row p q h none e = refl
Within-row p q h (some row) e = h row e

-- What follows a program keeps what it is to keep, from where the program stopped.
then-Keeps :
    {A B : Type 0} (q r : RoomRow → Bool) (f : A → D B) (x : Tried A × Session)
    → ((a : A) → Keeps q r (f a))
    → Within q r
    → on_row q x.1.row ≡ true
    → on_row r (((λ _. x) >>= f) x.1).1.row ≡ true
unfolding ◌>>=◌
then-Keeps q r f (Tried.ok a, t) hf h e = kept_by (hf a) t e
then-Keeps q r f (Tried.broke, t) hf h e = Within-row q r h t.row e

undone_keeps :
    {A : Type 0} (p q : RoomRow → Bool) (x : Tried A × Session) (s : Session)
    → Within p q
    → on_row p s.row ≡ true
    → on_row q x.1.row ≡ true
    → on_row q (transaction (λ _. x) s).1.row ≡ true
undone_keeps p q (Tried.ok a, t) s h e e' = e'
undone_keeps p q (Tried.broke, t) s h e e' = Within-row p q h s.row e

if-same :
    (b : Bool) (p : Option RoomRow → Bool) (x y : Option RoomRow)
    → p x ≡ true
    → p y ≡ true
    → p (if b then x else y) ≡ true
if-same true p x y e f = e
if-same false p x y e f = f

pub Keeps-bind :
    {A B : Type 0} {p q r : RoomRow → Bool} {m : D A} {f : A → D B}
    → Keeps p q m
    → ((a : A) → Keeps q r (f a))
    → Within q r
    → Keeps p r (m >>= f)
unfolding ◌>>=◌
Keeps-bind {q = q} {r = r} {m = m} {f = f} hm hf w =
    keeps (λ s e. then-Keeps q r f (m s) hf w (kept_by hm s e))

pub Keeps-pure : {A : Type 0} (p q : RoomRow → Bool) (a : A) → Within p q → Keeps p q (pure a)
Keeps-pure p q a h = keeps (λ s e. Within-row p q h s.row e)

pub Keeps-transaction :
    {A : Type 0} (p q : RoomRow → Bool) (m : D A)
    → Within p q
    → Keeps p q m
    → Keeps p q (transaction m)
Keeps-transaction p q m h hm = keeps (λ s e. undone_keeps p q (m s) s h e (kept_by hm s e))

written_keeps :
    (p q : RoomRow → Bool) (row : RoomRow) (o : Option RoomRow)
    → Within p q
    → ((written : RoomRow) → o ≡ some written → q written ≡ true)
    → p row ≡ true
    → (n : ℕ) (calls : List Call)
    → on_row q (write_row (λ _. o) (record { row = some row; calls = calls; statement = n })).1.row
      ≡ true
written_keeps p q row none h hf e n calls = h row e
written_keeps p q row (some written) h hf e n calls = hf written refl

write_keeps :
    (p q : RoomRow → Bool) (f : RoomRow → Option RoomRow) (o : Option RoomRow) (calls : List Call)
    (n : ℕ)
    → Within p q
    → ((row written : RoomRow) → p row ≡ true → f row ≡ some written → q written ≡ true)
    → on_row p o ≡ true
    → on_row q (write_row f (record { row = o; calls = calls; statement = n })).1.row ≡ true
write_keeps p q f none calls n h hf e = refl
write_keeps p q f (some row) calls n h hf e =
    written_keeps p q row (f row) h (λ written eq. hf row written e eq) e n calls

module _ (w : World) where
  pub Keeps-other : (p : RoomRow → Bool) → Keeps p p (other! w)
  Keeps-other p = keeps (λ s e. ground arith)

  pub Keeps-try_update :
      (p q : RoomRow → Bool) (f : ℕ → RoomRow → Option RoomRow)
      → Within p q
      → ((now : ℕ) (row written : RoomRow)
          → p row ≡ true
          → f now row ≡ some written
          → q written ≡ true)
      → Keeps p q (try_update! w f)
  Keeps-try_update p q f h hf = keeps (λ s e. elim (Bool-cases (w.fails s.statement)) [
    | inl b ↦ rw (b) (Within-row p q h s.row e)
    | inr b ↦ rw (b) (
        write_keeps p q (f (w.now s.statement)) s.row s.calls s.statement h (hf (w.now s.statement))
          e)
  ])

  pub Keeps-attempt : {A : Type 0} (p : RoomRow → Bool) (m : Apply.M A) → Keeps p p (attempt! w m)
  Keeps-attempt p m = keeps (λ s e. e)

  pub Keeps-update :
      (p q : RoomRow → Bool) (f : ℕ → RoomRow → RoomRow)
      → Within p q
      → ((now : ℕ) (row : RoomRow) → p row ≡ true → q (f now row) ≡ true)
      → Keeps p q (update! w f)
  Keeps-update p q f h hf =
      Keeps-try_update p q (λ now row. some (f now row)) h
        (λ now row written e eq. let kept = hf now row e in cc)

  pub Keeps-or_broke :
      {A : Type 0} (p : RoomRow → Bool) (r : Apply.Result A) → Keeps p p (or_broke w r)
  Keeps-or_broke p (Apply.Result.done a) = keeps (λ s e. e)
  Keeps-or_broke p (Apply.Result.failed x) = keeps (λ s e. e)

  pub Keeps-read_failures : (p : RoomRow → Bool) → Keeps p p (read_failures w)
  Keeps-read_failures p = keeps (λ s e. e)

  pub Keeps-is_wanted : (p : RoomRow → Bool) → Keeps p p (is_wanted w)
  Keeps-is_wanted p = keeps (λ s e. e)

  -- What the recorder writes, and what a failure writes, keep a test that does not read it.
  written_record :
      (p : RoomRow → Bool) (c : Cluster) (call : Call) (log : List Call) (o : Option RoomRow)
      → ((uid hash : String) (row : RoomRow)
          → p row ≡ true
          → p (record_deployment uid hash row) ≡ true)
      → on_row p o ≡ true
      → on_row p (write_record c call log o) ≡ true
  written_record p c (Call.record_uid room uid hash) log none h e =
      if-same (is_some (c.on_record log room uid hash)) (on_row p) none none e e
  written_record p c (Call.record_uid room uid hash) log (some row) h e =
      if-same (is_some (c.on_record log room uid hash)) (on_row p) (some row)
        (some (record_deployment uid hash row)) e (h uid hash row e)
  written_record p c _ log o h e = e

  pub Keeps-recorded_row :
      (p : RoomRow → Bool) (c : Cluster) (log : List Call) (o : Option RoomRow)
      → ((uid hash : String) (row : RoomRow)
          → p row ≡ true
          → p (record_deployment uid hash row) ≡ true)
      → on_row p o ≡ true
      → on_row p (recorded_row c log o) ≡ true
  unfolding recorded_row
  Keeps-recorded_row p c [] o h e = e
  Keeps-recorded_row p c (call ∷ log) o h e =
      written_record p c call log (recorded_row c log o) h (Keeps-recorded_row p c log o h e)

  pub Keeps-run_start :
      (p : RoomRow → Bool) (q : StartRequest)
      → ((uid hash : String) (row : RoomRow)
          → p row ≡ true
          → p (record_deployment uid hash row) ≡ true)
      → Keeps p p (run_start! w q)
  Keeps-run_start p q h =
      keeps (λ s e.
        Keeps-recorded_row p w.cluster (Apply.ensure_room_running w.cluster q []).1 s.row h e)

  -- `?` on a program of the applier.
  pub Keeps-attempt_or_broke :
      {A B : Type 0} {p q : RoomRow → Bool} (m : Apply.M A) {f : A → D B}
      → ((a : A) → Keeps p q (f a))
      → Within p q
      → Keeps p q (attempt! w m >>= λ r. or_broke w r >>= f)
  Keeps-attempt_or_broke {p = p} m h ok =
      Keeps-bind (Keeps-attempt p m) (λ r. Keeps-bind (Keeps-or_broke p r) h ok) ok

  pub Keeps-remove_row : (p : RoomRow → Bool) → Keeps p p (remove_row w)
  Keeps-remove_row p = keeps (λ s e. ground arith)

  pub Keeps-fail_with :
      (p : RoomRow → Bool) (room : ℕ) (error : String)
      → ((now : ℕ) (row written : RoomRow)
          → p row ≡ true
          → failed now error row ≡ some written
          → p written ≡ true)
      → ((at : ℕ) (row : RoomRow) → p row ≡ true → p (backing_off at row) ≡ true)
      → Keeps p p (fail_with w room error)
  unfolding fail_with
  Keeps-fail_with p room error hf hb =
      let ok = λ (row : RoomRow) (e : p row ≡ true). e in
      Keeps-bind (Keeps-attempt p (Apply.delete_deployment! w.cluster room))
        (λ _.
          Keeps-bind (Keeps-other p)
            (λ _.
              Keeps-bind (Keeps-try_update p p (λ now. failed now error) ok hf)
                (λ _.
                  Keeps-bind (Keeps-read_failures p)
                    (λ n.
                      Keeps-bind
                        (Keeps-update p p
                          (λ now. backing_off (w.local_now + seconds (retry_delay n room))) ok
                          (λ now. hb _))
                        (λ _. Keeps-bind (Keeps-other p) (λ _. Keeps-pure p p Outcome.done ok) ok)
                        ok)
                    ok)
                ok)
            ok)
        ok
