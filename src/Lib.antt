-- ===== src/Lib.antt =====
-- Puna hosts game rooms: a web tier writes what people want of a room into PostgreSQL, and one
-- orchestrator makes the cluster agree with it. This library models the orchestrator's decisions and
-- what it writes, what it asks of the cluster and of the rooms, and the parts of the web tier that decide
-- who may open a room, who belongs to one, who holds its slots, what is asked of it and what a filter
-- says, and proves what they keep true.
--
-- The parts and how they meet. A pass (puna-orchestrator/src/reconcile.rs) reads every room's row into
-- a view, lists the cluster's Deployments, plans at most one step for each room
-- (puna-orchestrator/src/plan.rs) and carries the steps out (puna-orchestrator/src/steps.rs). A start
-- asks the port allocator for a pair of ports (puna-core/src/model/port.rs) and the applier for the
-- room's objects (puna-orchestrator/src/apply.rs), as puna-orchestrator/src/spec describes them. The loop
-- of puna-orchestrator/src/main.rs decides when a pass is a full one, and a full pass sweeps what no room
-- owns (puna-orchestrator/src/sweep.rs). The web tier cannot reach a room: it queues commands
-- (puna-core/src/model/command.rs), and a dispatcher beside the loop runs them
-- (puna-orchestrator/src/dispatch.rs), with the Secret that the slots of the room say
-- (puna-core/src/model/slot.rs).
--
-- - Common: the tests, lists, stable sort, instants and integers that the parts share. A time is a
--   natural number of nanoseconds, a chrono duration an integer of them.
-- - Model: RoomState, DesiredState and SlotAuth of puna-core/src/model/room.rs.
-- - Plan: View is RoomView and what is read of the cluster; Decide is `step_for`, arm by arm, with
--   Decide/Priority, Decide/Reaping and Decide/Deadlines on it; Pass is `plan`, with Pass/Caps on its two
--   budgets, Pass/Exact on what it holds and Pass/Order on which rooms come first. Pass/Places and
--   Pass/Budget are lemmas.
-- - Apply: `ensure_room_running` and `teardown_room` as a state and exception monad over the log of calls.
--   The cluster is a record of functions that answer each call from the calls before it, so every
--   theorem holds for every behaviour of the cluster. Apply/Ordering is on the order of the writes,
--   Apply/Outcomes on what is reported.
-- - Ports: the table of reservations as a list of rows, each statement of SQL one function on it, with
--   Ports/Soundness, Ports/Sticky, Ports/Exhaustion and Ports/Ranges on it. What other transactions lock
--   and commit between the rounds is an argument.
-- - Steps: Row is the columns of `rooms` and each UPDATE; Execute is every handler of `execute`, whose
--   statements are numbered and may each fail, over the applier of Apply; View is `idle_since` and
--   `load_views`; Backoff is `retry_delay`. Keeps is what a program keeps of the row wherever it stops,
--   Life is the relation of all changes of a row and Failing is on the failure path. Writes is the
--   relation of the statements that a step makes: Invariant and Handlers prove the invariant by it, and
--   Writes/Moves takes the steps as moves of a machine on the two states.
-- - Filters: the rules of puna-core/src/model/filter.rs (Direction, Kind, Rule), the table of a form
--   (Table, of puna-web/src/routes/filters.rs) and the rows of the database for one room with
--   `reapply_filters` of steps.rs (Stored). Table/Reads, Table/Saved and Stored/Kept prove on them.
-- - Spec: Sizing is the sizes of puna-orchestrator/src/spec/room.rs, Argv is spec/args.rs and Fingerprint
--   is `Draft` of spec/room.rs; Secret is spec/secret.rs, and Pod is the container of spec/deployment.rs
--   and the ports of spec/service.rs. Sizing/Bounds, Sizing/Covers, Argv/Accepted, Fingerprint/Drift,
--   Secret/Holders and Pod/Listens prove on them, with the lemmas of Fingerprint/Lines,
--   Fingerprint/Written and Fingerprint/Parts. The canonical form of the fingerprint is the text that is hashed; a token
--   `--name=value` of a command line is kept as its parts.
-- - Sweep: `collect_orphans` of puna-orchestrator/src/sweep.rs over the passes that a sweeper makes.
-- - Cadence: the turns of `reconcile_until_lost` of puna-orchestrator/src/main.rs.
-- - Gate: `standing` of puna-web/src/gate.rs with `evaluate` of puna-core/src/model/settings.rs.
-- - Roster: Role is RoomRole, Members the staff and the invitations of puna-core/src/model/member.rs with
--   the trigger of the first migration, and Slots the slots of puna-core/src/model/slot.rs with the two
--   functions of room.rs that write them. Each has its statements as calls in a child Calls; Members/Kept,
--   Members/Spent and Members/Raised, and Slots/Held, Slots/Armed, Slots/Built and Slots/Access prove on
--   them. Slots/Built meets Spec/Secret.
-- - Commands: Probe is what a room answers, Kind the commands and their roles, Queue the table of commands
--   with each statement on it, Console what a request of puna-web/src/routes (console.rs, bulk.rs,
--   filters.rs) writes before it queues a command, Dispatch the execution of one command and Drain the loop of
--   the dispatcher. Console/Statements, Console/Authorized and Console/Recorded, Dispatch/Answered and
--   Dispatch/Pushed, and Drain/Once, Drain/Healthy and Drain/Settled prove on them.
-- - Lobby: Names, Passes and Import are `resolved_name`, `plan`, and `may_import` with `import` of
--   puna-web/src/lobby.rs, which claims slots by Roster/Slots. Lobby/Named and Lobby/Once prove on the
--   plan, Lobby/Admitted on the import.
-- - Scenarios: concrete rooms, clusters and tables, with tests and the theorems applied to them.
--
-- Bounds. The loop of `allocate` is recursion on its 16 rounds, the source's own number, and returns in
-- each case. INTEGER columns stop at 2^31 - 1: a statement that would pass it fails, and the `i32` sum of
-- the planner wraps. Ports read back into 16 bits keep the remainder. A sum on `i64` in the sizes that
-- leaves its range is an error of the model, and the products that saturate do. The loop of `drain` has
-- no bound: it is recursion on the rounds that it is watched for, and a theorem says how many are enough.
-- All other recursion is structural. The remaining uses of an invitation stop at 0, as the statement that
-- takes one asks for one.
--
-- What is taken as an argument: the database's clock and `random()`, the tokens and passwords that are
-- drawn, which statements fail, the rows that others lock and queue, the answers of a lobby, of a room, of
-- the cluster, of the lock of a room, of the file system and of the rendering of a spec, the names that
-- the triggers of a lobby's yaml can set, the text of an error, the standard library's work on text and
-- on floating-point numbers, and JSON.
--
-- What is not modelled: metrics, logs and the journal of events; the requests of the steps to a running room
-- but for the rulesets that it is told, whose answers no handler acts on; notifications, which only wake;
-- the constants of the objects' templates (puna-orchestrator/src/spec); the refresh of the Secrets and the
-- hourly lane of the sweep; readiness; the polling of rooms; the other routes and the pages of puna-web,
-- the artifacts and the other models of puna-core, and puna-tools. Transactions that overlap are modelled
-- where their statements take a row or leave it; the count of the trigger on members sees no other
-- transaction.
pub mod Common
pub mod Model
pub mod Plan
pub mod Apply
pub mod Ports
pub mod Steps
pub mod Filters
pub mod Spec
pub mod Sweep
pub mod Cadence
pub mod Gate
pub mod Roster
pub mod Commands
pub mod Lobby
mod Scenarios
