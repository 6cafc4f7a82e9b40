-- ===== src/Commands/Console/Recorded.antt =====
-- What a request does to the queue, and what stands in the slots when it comes to it.
use puna.Common.{
  ℕ, ◌≡◌, refl, Bool, true, false, Option, none, some, String, List, [], ◌∷◌, arith, ◌&&◌,
  if◌then◌else◌, is_some, is_none, find_first, same_text, same_text_iff, Bool-cases, inl, inr, ◌⊎◌,
  Option-cases, subst, sym, ap,
}
use puna.Roster.Slots.{Slot, at_slot, rotate_password, set_locked}
use puna.Roster.Role.{role_le}
use puna.Commands.Kind.{RoomCommand, required_role}
use puna.Commands.Queue.{new_row}
use puna.Commands.Console.{
  Request, Site, Shelf, Reply, Prepare, Prepared, run_inner, once_prepared, queue_one,
  prepare_command, prepare_slot_credential, record_lock, is_up, is_per_slot, no_slot,
}

-- The password of the slot, and its lock.
abbrev pub has_password_at : ℕ → ℕ → String → List Slot → Bool
has_password_at room n password slots = elim (find_first (at_slot room n) slots) [
  | none ↦ false
  | some s ↦ same_text s.password (some password)
]

abbrev pub has_lock_at : ℕ → ℕ → Bool → List Slot → Bool
has_lock_at room n locked slots = elim (find_first (at_slot room n) slots) [
  | none ↦ false
  | some s ↦ if locked then is_some s.locked_at else is_none s.locked_at
]

rotate_password-has_password_at :
    (room n : ℕ) (password : String) (slots : List Slot)
    → no_slot room n slots ≡ false
    → has_password_at room n password (rotate_password room n password slots).1 ≡ true
unfolding rotate_password
rotate_password-has_password_at room n password [] e = cc
rotate_password-has_password_at room n password (s ∷ slots) e = ground (
  arith,
  (same_text_iff (some password) (some password)).1 refl,
  rotate_password-has_password_at room n password slots,
)

set_locked-has_lock_at :
    (now room n by : ℕ) (locked : Bool) (slots : List Slot)
    → no_slot room n slots ≡ false
    → has_lock_at room n locked (set_locked now room n locked by slots).1 ≡ true
unfolding set_locked
set_locked-has_lock_at now room n by locked [] e = cc
set_locked-has_lock_at now room n by true (s ∷ slots) e =
    ground (arith, set_locked-has_lock_at now room n by true slots)
set_locked-has_lock_at now room n by false (s ∷ slots) e =
    ground (arith, set_locked-has_lock_at now room n by false slots)

-- What a command that is queued presupposes: a new password is stored and the Secret marked as stale, in
-- a room that runs and asks for a password of each slot; a lock is recorded.
abbrev pub is_recorded : Request → RoomCommand → Shelf → Bool
is_recorded q (RoomCommand.rotate_password n) shelf =
    is_up q.room
    && is_per_slot q.room.slot_auth
    && has_password_at q.room.id n (q.drawn n) shelf.slots
    && shelf.secret_stale
is_recorded q (RoomCommand.lock_slot n locked) shelf = has_lock_at q.room.id n locked shelf.slots
is_recorded q command shelf = true

abbrev is_prepared : Request → RoomCommand → Prepare × Shelf → Bool
is_prepared q command (Prepare.refused r, shelf) = true
is_prepared q command (Prepare.ready Prepared.stored, shelf) = true
is_prepared q command (Prepare.ready Prepared.uncertain, shelf) = true
is_prepared q command (Prepare.ready p, shelf) = is_recorded q command shelf

prepare_slot_credential-is_prepared :
    (q : Request) (n : ℕ) (shelf : Shelf)
    → is_prepared q (RoomCommand.rotate_password n) (prepare_slot_credential q n shelf) ≡ true
unfolding prepare_slot_credential
prepare_slot_credential-is_prepared q n shelf =
    ground (arith, rotate_password-has_password_at q.room.id n (q.drawn n) shelf.slots)

record_lock-is_prepared :
    (q : Request) (n : ℕ) (locked : Bool) (shelf : Shelf)
    → is_prepared q (RoomCommand.lock_slot n locked) (record_lock q n locked shelf) ≡ true
unfolding record_lock
record_lock-is_prepared q n locked shelf =
    ground (arith, set_locked-has_lock_at q.now q.room.id n q.user locked shelf.slots)

prepare_command-is_prepared :
    (q : Request) (command : RoomCommand) (shelf : Shelf)
    → is_prepared q command (prepare_command q command shelf) ≡ true
unfolding prepare_command
prepare_command-is_prepared q (RoomCommand.rotate_password n) shelf =
    prepare_slot_credential-is_prepared q n shelf
prepare_command-is_prepared q (RoomCommand.lock_slot n locked) shelf =
    record_lock-is_prepared q n locked shelf
prepare_command-is_prepared q command shelf = refl

-- Whether a request came as far as the queue.
abbrev pub reached_queue : Reply → Bool
reached_queue Reply.unsent = true
reached_queue (Reply.queued id) = true
reached_queue _ = false

module _ {J : Type 0} (encode : RoomCommand → Option J) where
  -- What a request does to the queue and what is stored then, by its reply. Either it did not come to
  -- the queue, which is as it was; or the role suffices for the command, what the command presupposes
  -- is stored, and the queue got either nothing, its JSON having failed, or one new row of the command.
  abbrev pub Queues : Request → RoomCommand → Site J → Reply × Site J → Type 0
  Queues q command s (reply, later) =
      ((reached_queue reply ≡ false) × (later.rows ≡ s.rows))
      ⊎ ((role_le (required_role command) q.role ≡ true)
          × (is_recorded q command later.shelf ≡ true)
          × (((reply ≡ Reply.unsent) × (encode command ≡ none) × (later.rows ≡ s.rows))
              ⊎ ((reply ≡ Reply.queued q.id)
                  × ((body : J) × (encode command ≡ some body)
                      × (later.rows
                          ≡ new_row q.id q.now q.room.id q.user q.role body none ∷ s.rows)))))

  queue_one-none :
      (q : Request) (command : RoomCommand) (s : Site J) (shelf : Shelf)
      → encode command ≡ none
      → queue_one encode q command (record { rows = s.rows; shelf = shelf })
        ≡ (Reply.unsent, record { rows = s.rows; shelf = shelf })
  unfolding queue_one
  queue_one-none q command s shelf e = ground arith

  queue_one-some :
      (q : Request) (command : RoomCommand) (s : Site J) (shelf : Shelf) (body : J)
      → encode command ≡ some body
      → queue_one encode q command (record { rows = s.rows; shelf = shelf }) ≡ (
        Reply.queued q.id,
        record {
          rows = new_row q.id q.now q.room.id q.user q.role body none ∷ s.rows;
          shelf = shelf;
        },
      )
  unfolding queue_one
  queue_one-some q command s shelf body e = ground arith

  queue_one-Queues :
      (q : Request) (command : RoomCommand) (s : Site J) (shelf : Shelf)
      → role_le (required_role command) q.role ≡ true
      → is_recorded q command shelf ≡ true
      → Queues q command s (queue_one encode q command (record { rows = s.rows; shelf = shelf }))
  queue_one-Queues q command s shelf may h = elim (Option-cases (encode command)) [
    | inl e ↦
        subst (Queues q command s) (sym (queue_one-none q command s shelf e))
          (inr (may, h, inl (refl, e, refl)))
    | inr (body, e) ↦
        subst (Queues q command s) (sym (queue_one-some q command s shelf body e))
          (inr (may, h, inr (refl, (body, e, refl))))
  ]

  once_prepared-Queues :
      (q : Request) (command : RoomCommand) (s : Site J) (answer : Prepare × Shelf)
      → role_le (required_role command) q.role ≡ true
      → is_prepared q command answer ≡ true
      → Queues q command s (once_prepared encode q command s.rows answer)
  once_prepared-Queues q command s (Prepare.refused r, shelf) may h = inl (refl, refl)
  once_prepared-Queues q command s (Prepare.ready Prepared.stored, shelf) may h = inl (refl, refl)
  once_prepared-Queues q command s (Prepare.ready Prepared.uncertain, shelf) may h =
      inl (refl, refl)
  once_prepared-Queues q command s (Prepare.ready Prepared.live, shelf) may h =
      queue_one-Queues q command s shelf may h
  once_prepared-Queues q command s (Prepare.ready Prepared.not_applicable, shelf) may h =
      queue_one-Queues q command s shelf may h

  abbrev allowed : Request → RoomCommand → Site J → Bool → Reply × Site J
  allowed q command s may =
      if may
      then once_prepared encode q command s.rows (prepare_command q command s.shelf)
      else (Reply.forbidden, s)

  -- A request for a command leaves the queue as it is, or it puts one new row of just this command and
  -- this request at its head, and answers with the row's id. It comes to the queue only if the role
  -- suffices and what the command presupposes is stored: the new password, with the Secret marked
  -- stale, in a room that runs and asks for a password of each slot, or the lock; and that stays
  -- stored if the queueing fails, which is then answered. A request that is refused or that waits for
  -- the room's next start queues nothing.
  pub run_inner-is_recorded :
      (q : Request) (command : RoomCommand) (s : Site J)
      → Queues q command s (run_inner encode q command s)
  unfolding run_inner
  run_inner-is_recorded q command s = elim (Bool-cases (role_le (required_role command) q.role)) [
    | inl may ↦ subst (Queues q command s) (sym (ap (allowed q command s) may)) (
        once_prepared-Queues q command s (prepare_command q command s.shelf) may
          (prepare_command-is_prepared q command s.shelf))
    | inr refused ↦
        subst (Queues q command s) (sym (ap (allowed q command s) refused)) (inl (refl, refl))
  ]
