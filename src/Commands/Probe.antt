-- ===== src/Commands/Probe.antt =====
-- What comes back of a room over HTTP: `CommandOutput` of puna-core/src/model/command.rs, `RoomError` and
-- `classify` of puna-core/src/room/mod.rs, and `execute` of puna-core/src/probe/http.rs.
use puna.Common.{ℕ, Bool, Option, none, some, String, List, if◌then◌else◌, ◌&&◌, ◌==◌, leb}

-- What a room answered. A line of text that the dispatcher writes itself stands as what it says.
pub data Line : Type 0 where
  answered : String → Line
  room_filter_removed slot_follows slot_exempt stored_until_restart password_rotated : Line
  room_filter_set slot_filter_set : ℕ → Line

pub record CommandOutput : Type 0 where
  pub did : Bool
  pub output : List Line
  pub affected_slots : List ℕ

-- What a probe of a room reports: `RoomError` of puna-core/src/room/mod.rs and `ProbeError` of
-- puna-core/src/probe/mod.rs.
pub data RoomError : Type 0 where
  resolve transport rate_limited : RoomError
  status : ℕ → RoomError
  refused : ℕ → String → RoomError

pub data ProbeError : Type 0 where
  room : RoomError → ProbeError
  unsupported malformed : String → ProbeError

-- `StatusCode::is_success`.
abbrev pub is_success : ℕ → Bool
is_success n = leb 200 n && leb n 299

unfoldable pub classify : ℕ → Option RoomError
classify n =
    if is_success n
    then none
    else if n == 429
    then some RoomError.rate_limited
    else some (RoomError.status n)

-- What becomes of a request: the room's address is not resolved, the request is not answered, or it is,
-- with a status and a body that reads as an output or does not.
pub data Exchange : Type 0 where
  unresolved unanswered : Exchange
  response : ℕ → Option CommandOutput → Exchange

pub data Said : Type 0 where
  answer : CommandOutput → Said
  error : ProbeError → Said

unfoldable pub said : Exchange → Said
unfolding classify
said Exchange.unresolved = Said.error (ProbeError.room RoomError.resolve)
said Exchange.unanswered = Said.error (ProbeError.room RoomError.transport)
said (Exchange.response n body) = elim (classify n) [
  | some e ↦ Said.error (ProbeError.room e)
  | none ↦ elim body [
    | none ↦ Said.error (ProbeError.malformed "the body")
    | some output ↦ Said.answer output
  ]
]
