-- ===== src/Commands/Console/Authorized.antt =====
-- Nothing stands in the queue that its requester's role does not suffice for.
use puna.Common.{
  ℕ, ◌≡◌, subst, Bool, true, false, not, Option, none, some, String, List, [], ◌∷◌, map,
  if◌then◌else◌, arith, ◌&&◌, Option-cases, Bool-cases, inl, inr, str_eq,
}
use puna.Roster.Role.{RoomRole, role_le}
use puna.Commands.Kind.{RoomCommand, CommandState, Why, required_role}
use puna.Commands.Probe.{CommandOutput}
use puna.Commands.Queue.{Row, claim, finish, fail_stale}
use puna.Commands.Console.{
  Request, Site, Shelf, Reply, Prepare, Prepared, Loop, run_inner, once_prepared, queue_all,
  queue_one, apply_bulk, apply_commands, once_all_prepared, push_staged, filter_route,
  tell_the_room, command_for, commands_for, prepare_command, prepare_all, is_up, tier_refuses,
}
use puna.Commands.Console.Statements.{
  AllAuthorized, claim-AllAuthorized, finish-AllAuthorized, fail_stale-AllAuthorized, RoundTrip,
  enqueue-AllAuthorized, AllMay, enqueue_batch-AllAuthorized,
}

module _ {J : Type 0} (encode : RoomCommand → Option J) (read : J → Option RoomCommand) where
  -- What happens to the queue: a request, or a statement of the dispatcher.
  pub data QueueEvent : Type 0 where
    console : Request → RoomCommand → QueueEvent
    bulk : Request → String → List ℕ → QueueEvent
    staged : Request → List ℕ → QueueEvent
    filters : Request → Option ℕ → QueueEvent
    claimed : ℕ → (ℕ → Bool) → QueueEvent
    finished : ℕ → ℕ → CommandState → Option CommandOutput → Option Why → QueueEvent
    swept : ℕ → ℕ → QueueEvent

  abbrev pub site_after : QueueEvent → Site J → Site J
  site_after (QueueEvent.console q command) s = (run_inner encode q command s).1
  site_after (QueueEvent.bulk q action slots) s = (apply_bulk encode q action slots s).1
  site_after (QueueEvent.staged q slots) s = (push_staged encode q slots s).1
  site_after (QueueEvent.filters q slot) s = (filter_route encode q slot s).1
  site_after (QueueEvent.claimed now locked) s = record s {
    rows = (claim read now locked s.rows).1;
  }
  site_after (QueueEvent.finished now id state result error) s = record s {
    rows = finish now id state result error s.rows;
  }
  site_after (QueueEvent.swept now older_than) s = record s {
    rows = (fail_stale now older_than s.rows).1;
  }

  unfoldable pub history : List QueueEvent → Site J → Site J
  history [] s = s
  history (e ∷ events) s = history events (site_after e s)

module _ {J : Type 0} (encode : RoomCommand → Option J) (read : J → Option RoomCommand)
    (law : RoundTrip encode read) where
  once_prepared-AllAuthorized :
      (q : Request) (command : RoomCommand) (rows : List (Row J)) (answer : Prepare × Shelf)
      → role_le (required_role command) q.role ≡ true
      → AllAuthorized read rows
      → AllAuthorized read (once_prepared encode q command rows answer).1.rows
  unfolding queue_one
  once_prepared-AllAuthorized q command rows (Prepare.refused r, shelf) may all = all
  once_prepared-AllAuthorized q command rows (Prepare.ready Prepared.stored, shelf) may all = all
  once_prepared-AllAuthorized q command rows (Prepare.ready Prepared.uncertain, shelf) may all = all
  once_prepared-AllAuthorized q command rows (Prepare.ready p, shelf) may all =
      enqueue-AllAuthorized encode read law false q.id q.now q.room.id q.user q.role command rows
        may all

  run_inner-AllAuthorized :
      (q : Request) (command : RoomCommand) (s : Site J)
      → AllAuthorized read s.rows
      → AllAuthorized read (run_inner encode q command s).1.rows
  unfolding run_inner
  run_inner-AllAuthorized q command s all =
      elim (Bool-cases (role_le (required_role command) q.role)) [
        | inl may ↦
            rw (may, run_inner)
              (once_prepared-AllAuthorized q command s.rows (prepare_command q command s.shelf) may
                all)
        | inr refused ↦ rw (refused, run_inner) all
      ]

  -- Every action of the panel is a helper's.
  command_for-may :
      (role : RoomRole) (action : String) (n : ℕ) (command : RoomCommand)
      → command_for action n ≡ some command
      → role_le (required_role command) role ≡ true
  unfolding command_for required_role
  command_for-may role action n command e = ground arith

  commands_for-AllMay :
      (role : RoomRole) (action : String) (slots : List ℕ) (commands : List RoomCommand)
      → commands_for action slots ≡ some commands
      → AllMay role commands
  unfolding commands_for
  commands_for-AllMay role action [] [] e = tt
  commands_for-AllMay role action [] (c ∷ commands) e = cc
  commands_for-AllMay role action (n ∷ slots) commands e =
      elim (Option-cases (command_for action n)) [
        | inl unknown ↦ ground arith
        | inr (c, known) ↦ elim (Option-cases (commands_for action slots)) [
          | inl unknown_rest ↦ ground arith
          | inr (rest, known_rest) ↦ subst (AllMay role) {x = c ∷ rest} (ground arith) (
              AllMay-cons role c rest (command_for-may role action n c known)
                (commands_for-AllMay role action slots rest known_rest))
        ]
      ]
    where
      AllMay-cons :
          (role : RoomRole) (c : RoomCommand) (rest : List RoomCommand)
          → role_le (required_role c) role ≡ true
          → AllMay role rest
          → AllMay role (c ∷ rest)
      AllMay-cons role c rest h k = (h, k)

  queue_all-AllAuthorized :
      (q : Request) (commands : List RoomCommand) (s : Site J)
      → AllMay q.role commands
      → AllAuthorized read s.rows
      → AllAuthorized read (queue_all encode q commands s).1.rows
  unfolding queue_all
  queue_all-AllAuthorized q commands s may all =
      enqueue_batch-AllAuthorized encode read law false q.id q.ids q.now q.room.id q.user q.role
        commands s.rows may all

  once_all_prepared-AllAuthorized :
      (q : Request) (commands : List RoomCommand) (rows : List (Row J)) (answer : Loop × Shelf)
      → AllMay q.role commands
      → AllAuthorized read rows
      → AllAuthorized read (once_all_prepared encode q commands rows answer).1.rows
  unfolding queue_all
  once_all_prepared-AllAuthorized q commands rows (Loop.broken r, shelf) may all = all
  once_all_prepared-AllAuthorized q commands rows (Loop.over true, shelf) may all = all
  once_all_prepared-AllAuthorized q commands rows (Loop.over false, shelf) may all =
      queue_all-AllAuthorized q commands (record { rows = rows; shelf = shelf }) may all

  apply_commands-AllAuthorized :
      (q : Request) (action : String) (slots : List ℕ) (s : Site J)
      → AllAuthorized read s.rows
      → AllAuthorized read (apply_commands encode q action (commands_for action slots) s).1.rows
  apply_commands-AllAuthorized q action slots s all =
      elim (Option-cases (commands_for action slots)) [
        | inl unknown ↦ rw unknown all
        | inr (commands, known) ↦ rw known (
            if_kept (tier_refuses encode q.role commands) (Reply.forbidden, s)
              (if not (is_up q.room) && not (str_eq action "rotate_passwords")
                then (Reply.not_running, s)
                else once_all_prepared encode q commands s.rows
                    (prepare_all q commands false s.shelf))
              all
              (if_kept (not (is_up q.room) && not (str_eq action "rotate_passwords"))
                (Reply.not_running, s)
                (once_all_prepared encode q commands s.rows (prepare_all q commands false s.shelf))
                all
                (once_all_prepared-AllAuthorized q commands s.rows
                  (prepare_all q commands false s.shelf)
                  (commands_for-AllMay q.role action slots commands known) all)))
      ]
    where
      if_kept :
          (b : Bool) (x y : Reply × Site J)
          → AllAuthorized read x.1.rows
          → AllAuthorized read y.1.rows
          → AllAuthorized read (if b then x else y).1.rows
      if_kept true x y h k = h
      if_kept false x y h k = k

  apply_bulk-AllAuthorized :
      (q : Request) (action : String) (slots : List ℕ) (s : Site J)
      → AllAuthorized read s.rows
      → AllAuthorized read (apply_bulk encode q action slots s).1.rows
  unfolding apply_bulk
  apply_bulk-AllAuthorized q action [] s all = all
  apply_bulk-AllAuthorized q action (n ∷ slots) s all =
      apply_commands-AllAuthorized q action (n ∷ slots) s all

  apply_filters-AllMay :
      (role : RoomRole) (slots : List ℕ)
      → AllMay role (map (λ n. RoomCommand.apply_filters (some n)) slots)
  unfolding required_role
  apply_filters-AllMay role [] = tt
  apply_filters-AllMay role (n ∷ slots) = (ground arith, apply_filters-AllMay role slots)

  push_staged-AllAuthorized :
      (q : Request) (slots : List ℕ) (s : Site J)
      → AllAuthorized read s.rows
      → AllAuthorized read (push_staged encode q slots s).1.rows
  unfolding push_staged
  push_staged-AllAuthorized q slots s all = elim (Bool-cases (is_up q.room)) [
    | inl up ↦
        rw (up, push_staged)
          (queue_all-AllAuthorized q (map (λ n. RoomCommand.apply_filters (some n)) slots) s
            (apply_filters-AllMay q.role slots) all)
    | inr down ↦ rw (down, push_staged) all
  ]

  tell_the_room-AllAuthorized :
      (q : Request) (slot : Option ℕ) (s : Site J)
      → role_le (required_role (RoomCommand.apply_filters slot)) q.role ≡ true
      → AllAuthorized read s.rows
      → AllAuthorized read (tell_the_room encode q slot s).1.rows
  unfolding tell_the_room
  tell_the_room-AllAuthorized q slot s may all = elim (Bool-cases (is_up q.room)) [
    | inl up ↦
        rw (up, tell_the_room)
          (enqueue-AllAuthorized encode read law false q.id q.now q.room.id q.user q.role
            (RoomCommand.apply_filters slot) s.rows may all)
    | inr down ↦ rw (down, tell_the_room) all
  ]

  filter_route-AllAuthorized :
      (q : Request) (slot : Option ℕ) (s : Site J)
      → AllAuthorized read s.rows
      → AllAuthorized read (filter_route encode q slot s).1.rows
  unfolding filter_route required_role
  filter_route-AllAuthorized q none s all = elim (Bool-cases (role_le RoomRole.organizer q.role)) [
    | inl may ↦ rw (may, filter_route) (tell_the_room-AllAuthorized q none s may all)
    | inr refused ↦ rw (refused, filter_route) all
  ]
  filter_route-AllAuthorized q (some n) s all =
      tell_the_room-AllAuthorized q (some n) s (ground arith) all

  site_after-AllAuthorized :
      (e : QueueEvent encode read) (s : Site J)
      → AllAuthorized read s.rows
      → AllAuthorized read (site_after encode read e s).rows
  site_after-AllAuthorized (QueueEvent.console q command) s all =
      run_inner-AllAuthorized q command s all
  site_after-AllAuthorized (QueueEvent.bulk q action slots) s all =
      apply_bulk-AllAuthorized q action slots s all
  site_after-AllAuthorized (QueueEvent.staged q slots) s all =
      push_staged-AllAuthorized q slots s all
  site_after-AllAuthorized (QueueEvent.filters q slot) s all =
      filter_route-AllAuthorized q slot s all
  site_after-AllAuthorized (QueueEvent.claimed now locked) s all =
      claim-AllAuthorized read now locked s.rows all
  site_after-AllAuthorized (QueueEvent.finished now id state result error) s all =
      finish-AllAuthorized read now id state result error s.rows all
  site_after-AllAuthorized (QueueEvent.swept now older_than) s all =
      fail_stale-AllAuthorized read now older_than s.rows all

  -- Whatever is requested, by whom and in whatever order, and whatever the dispatcher does between: the
  -- role that a command was queued with suffices for it, when a written command is read as itself and the
  -- queue was so before.
  pub history-AllAuthorized :
      (events : List (QueueEvent encode read)) (s : Site J)
      → AllAuthorized read s.rows
      → AllAuthorized read (history encode read events s).rows
  unfolding history
  history-AllAuthorized [] s all = all
  history-AllAuthorized (e ∷ events) s all =
      history-AllAuthorized events (site_after encode read e s) (site_after-AllAuthorized e s all)
