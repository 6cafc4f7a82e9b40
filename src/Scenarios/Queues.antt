-- ===== src/Scenarios/Queues.antt =====
-- A queue of two commands for a room that is up. A command is written as itself.
use puna.Common.{
  ℕ, ◌+◌, ◌≤◌, ◌≡◌, refl, true, false, Option, none, some, String, List, [], ◌∷◌, map, seconds, ℤ,
  pos, arith,
}
use puna.Filters.Rule.{Rule}
use puna.Model.SlotAuth.{SlotAuth}
use puna.Apply.{Reply}
use puna.Roster.Role.{RoomRole}
use puna.Roster.Slots.{Slot, SlotKind}
use puna.Commands.Kind
use puna.Commands.Queue
use puna.Commands.Drain
use puna.Commands.Kind.{RoomCommand, CommandState, Why}
use puna.Commands.Probe.{Line, Exchange}
use puna.Commands.Queue.{Row, new_row, enqueue}
use puna.Commands.Dispatch.{World, Effect, execute}
use puna.Commands.Dispatch.Answered.{IsSettled, execute-IsSettled}
use puna.Commands.Drain.{Round, Drained, drain, run, Turn}
use puna.Commands.Drain.Once.{times, waiting, coming_in, run-times}
use puna.Commands.Drain.Healthy.{IsHealthy}
use puna.Commands.Drain.Settled.{HasSettled, drain-HasSettled}
use puna.Commands.Console
use puna.Commands.Console.{Request, Room, Site, run_inner, apply_bulk}
use puna.Commands.Console.Statements.{AllAuthorized}
use puna.Commands.Console.Authorized.{QueueEvent, history, history-AllAuthorized}
use puna.Commands.Console.Recorded.{Queues, run_inner-is_recorded}

abbrev slot : Slot
slot = record {
  room_id = 1;
  slot_number = 2;
  player_name = "Ann";
  kind = SlotKind.player;
  password = some "old";
  password_hidden = false;
  owner_id = none;
  claim_token = some "tok";
  claimed_at = none;
  locked_at = none;
  locked_by = none;
}

abbrev world : World RoomCommand
world = record {
  commands = true;
  room_state = some "running";
  base_port = some 40000;
  token = some "token";
  room = some (SlotAuth.per_slot, none);
  secrets = some (record { admin_token = "admin"; server_password = none });
  slots = some (slot ∷ []);
  deployment = Reply.ok (
      some (record {
        name = "room-1";
        uid = "uid";
        room_id = some 1;
        spec_hash = none;
        image = none;
        replicas = pos 1;
        ready_replicas = pos 1;
        created_at = 0;
        deleting = false;
      }));
  secret_applied = Reply.ok tt;
  marking_fails = false;
  filters = none;
  password_set = none;
  filter_set = none;
  asked = λ command.
      Exchange.response 200
        (some (record { did = true; output = Line.answered "done" ∷ []; affected_slots = [] }));
}

abbrev read : RoomCommand → Option RoomCommand
read command = some command

abbrev decode : RoomCommand → Option (List (Rule ℕ))
decode command = none

abbrev to_json : List (ℤ × String) → String
to_json passwords = "{}"

abbrev queue : List (Row RoomCommand)
queue =
    new_row 8 20 1 10 RoomRole.helper (RoomCommand.release 2) none
    ∷ new_row 7 10 1 10 RoomRole.helper (RoomCommand.rotate_password 2) none
    ∷ []

abbrev rotation : Row RoomCommand
rotation = new_row 7 10 1 10 RoomRole.helper (RoomCommand.rotate_password 2) none

-- The Secret is written before the room is told.
secret_first : execute decode to_json world rotation ≡ (
  record {
    state = CommandState.ok;
    result =
        some (record { did = true; output = Line.password_rotated ∷ []; affected_slots = 2 ∷ [] });
    error = none;
  },
  Effect.write_secret (record {
    room_id = 1;
    contents = ("PAHOA_ADMIN_TOKEN", "admin") ∷ ("PAHOA_SLOT_PASSWORDS", "{}") ∷ [];
    owner = some "uid";
  })
      ∷ Effect.set_password 2 "old"
      ∷ [],
)
unfolding execute
secret_first = refl

execute-IsSettled_example : IsSettled (execute decode to_json world rotation).0
execute-IsSettled_example = execute-IsSettled decode to_json world rotation

abbrev round : Round RoomCommand
round = record {
  arrivals = [];
  connected = true;
  claim_fails = false;
  locked = λ id. false;
  claimed_at = 30;
  world = world;
  finish_fails = false;
  finished_at = 31;
}

abbrev healthy : IsHealthy round
healthy = record {
  nothing_comes = refl;
  connected = refl;
  claims = refl;
  unlocked = λ id. refl;
  records = refl;
}

abbrev rounds : List (Round RoomCommand)
rounds = round ∷ round ∷ round ∷ []

-- The older command is run first.
oldest_first : map (λ r. r.id) (drain read decode to_json rounds queue).ran ≡ 7 ∷ 8 ∷ []
unfolding drain Drain.drain_round Drain.drain_claimed Queue.claim Queue.finish execute
    Kind.disposition_state
oldest_first = refl

drain-HasSettled_example :
    HasSettled read decode to_json 7 queue (drain read decode to_json rounds queue)
drain-HasSettled_example =
    drain-HasSettled read decode to_json 7 rounds queue (healthy, (healthy, (healthy, tt)))
      (refl, (refl, tt)) (ground arith)

-- The outcome of the first run is lost, and the row is swept up before the next drain.
abbrev turns : List (Turn read decode to_json)
turns =
    Turn.drain_queue (record round { finish_fails = true } ∷ [])
    ∷ Turn.recover false (seconds 1000)
    ∷ Turn.drain_queue rounds
    ∷ []

run-times_example :
    times 7 (run read decode to_json turns queue).1
      + waiting 7 (run read decode to_json turns queue).0
    ≤ waiting 7 queue + coming_in read decode to_json 7 turns
run-times_example = run-times read decode to_json 7 turns queue

abbrev request : Request
request = record {
  role = RoomRole.helper;
  user = 10;
  room = record { id = 1; state = "running"; slot_auth = SlotAuth.per_slot };
  now = 10;
  id = 7;
  ids = λ i. i + 20;
  drawn = λ n. "new";
  moved = false;
}

abbrev site : Site RoomCommand
site = record { rows = []; shelf = record { slots = slot ∷ []; secret_stale = false } }

-- A helper asks for an option of the room, which is refused, and for a kick, which is not.
abbrev events : List (QueueEvent read read)
events =
    QueueEvent.console request (RoomCommand.set_option "hint_cost" "5")
    ∷ QueueEvent.bulk request "kick" (2 ∷ [])
    ∷ QueueEvent.claimed 20 (λ id. false)
    ∷ []

only_the_kick :
    map (λ r. r.command) (history read read events site).rows ≡ RoomCommand.kick 2 none ∷ []
unfolding history run_inner apply_bulk Queue.claim Console.prepare_all Console.queue_all
only_the_kick = refl

history-AllAuthorized_example : AllAuthorized read (history read read events site).rows
history-AllAuthorized_example =
    history-AllAuthorized read read (λ command body e. cc) events site tt

run_inner-is_recorded_example :
    Queues read request
      (RoomCommand.rotate_password 2)
      site
      (run_inner read request (RoomCommand.rotate_password 2) site)
run_inner-is_recorded_example =
    run_inner-is_recorded read request (RoomCommand.rotate_password 2) site
