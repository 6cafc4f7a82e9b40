-- ===== src/Ports.antt =====
-- The port allocator: puna-core/src/model/port.rs. The table `port_reservations` is a list of rows,
-- `port_ranges` a function, and the states of the rooms a function. A statement of SQL is one atomic
-- function on the table. `random()`, the rows that other transactions hold locked, and what those
-- transactions commit before each round of the loop are arguments, by the round. Left out is what they
-- commit within a round, between its two statements or between a statement's pick of a row and its
-- lock, and a room whose state changes meanwhile.
pub mod Soundness
pub mod Sticky
pub mod Exhaustion
pub mod Ranges
use puna.Common.{
  ℕ, zero, suc, ◌+◌, ◌-◌, ◌%◌, ◌/◌, Bool, true, false, ◌&&◌, ◌||◌, not, Option, none, some, List,
  [], ◌∷◌, ◌++◌, map, if◌then◌else◌, leb, ltb, ◌==◌, same_number, is_none, is_some, keep, any_of,
  sort_by_key, length,
}
use puna.Model.RoomState.{RoomState, is_live}

pub data Environment : Type 0 where
  dev prod : Environment

abbrev pub same_environment : Environment → Environment → Bool
same_environment Environment.dev Environment.dev = true
same_environment Environment.prod Environment.prod = true
same_environment _ _ = false

-- `last_activity` is `none` for '-infinity', which comes before every instant.
pub record Reservation : Type 0 where
  pub environment : Environment
  pub base_port : ℕ
  pub room_id : Option ℕ
  pub last_activity : Option ℕ
  pub quarantined_until : Option ℕ

abbrev pub Table : Type 0
Table = List Reservation

pub record PortRange : Type 0 where
  pub base_low : ℕ
  pub base_high : ℕ

pub record Allocation : Type 0 where
  pub base_port : ℕ
  pub reclaimed_from : Option ℕ

pub data AllocResult : Type 0 where
  allocated : Allocation → AllocResult
  exhausted : AllocResult

abbrev pub max_contention_retries : ℕ
max_contention_retries = 16

-- `UPDATE … WHERE`.
unfoldable pub update_where : (Reservation → Bool) → (Reservation → Reservation) → Table → Table
update_where p f [] = []
update_where p f (r ∷ rs) = (if p r then f r else r) ∷ update_where p f rs

-- `rows.into_iter().next()`.
abbrev pub first_row : Table → Option Reservation
first_row [] = none
first_row (r ∷ rs) = some r

-- `room_id IN` the rooms whose state is live.
abbrev pub state_is_live : Option RoomState → Bool
state_is_live none = false
state_is_live (some s) = is_live s

-- `quarantined_until IS NULL OR quarantined_until <= now()`.
abbrev pub not_quarantined : ℕ → Reservation → Bool
not_quarantined now r = elim r.quarantined_until [ none ↦ true | some u ↦ leb u now ]

-- `base_port BETWEEN base_low AND base_high` of the environment's range.
abbrev pub between : ℕ → Option PortRange → Bool
between port none = false
between port (some pr) = leb pr.base_low port && leb port pr.base_high

-- What one allocation runs in: the configuration, the rooms, and the other transactions.
pub record Context : Type 0 where
  pub environment : Environment
  pub now : ℕ
  pub range : Environment → Option PortRange
  pub state_of : ℕ → Option RoomState
  pub random : ℕ → ℕ → ℕ
  pub locked : ℕ → ℕ → Bool
  pub others : ℕ → Table → Table

module _ (c : Context) where
  abbrev pub room_is_live : Option ℕ → Bool
  room_is_live none = false
  room_is_live (some room) = state_is_live (c.state_of room)

  -- A row of this environment, out of quarantine and inside the configured range.
  abbrev pub is_usable : Reservation → Bool
  is_usable r =
      same_environment r.environment c.environment
      && not_quarantined c.now r
      && between r.base_port (c.range r.environment)

  -- Step 1: the room's own pair.
  abbrev pub is_own : ℕ → Reservation → Bool
  is_own room r = is_usable r && same_number r.room_id (some room)

  abbrev pub touch : Reservation → Reservation
  touch r = record r { last_activity = some c.now }

  -- Phase 2: an unbound pair that no other transaction holds.
  abbrev pub is_unbound : ℕ → Reservation → Bool
  is_unbound round r = is_usable r && is_none r.room_id && not (c.locked round r.base_port)

  -- Phase 3: a pair bound to a room that serves no players.
  abbrev pub is_victim : ℕ → Reservation → Bool
  is_victim round r =
      is_usable r
      && is_some r.room_id
      && not (room_is_live r.room_id)
      && not (c.locked round r.base_port)

  -- `ORDER BY last_activity ASC, random()`.
  abbrev pub order_key : ℕ → Reservation → Option ℕ × ℕ
  order_key round r = (r.last_activity, c.random round r.base_port)

  -- `ORDER BY … LIMIT 1` over the rows that pass a test.
  unfoldable pub pick : ℕ → (Reservation → Bool) → Table → Option Reservation
  pick round p t = first_row (sort_by_key (order_key round) (keep p t))

  -- The row that a candidate names, re-checked by the outer `WHERE`.
  abbrev pub is_row : Reservation → Reservation → Bool
  is_row chosen r =
      same_environment r.environment c.environment
      && r.base_port == chosen.base_port
      && same_number r.room_id chosen.room_id

  abbrev pub bind_to : ℕ → Reservation → Reservation
  bind_to room r = record r {
    room_id = some room;
    last_activity = some c.now;
    quarantined_until = none;
  }

  -- `release`: the binding goes, the row and its `last_activity` stay.
  unfoldable pub release : ℕ → Table → Table
  unfolding update_where
  release room =
      update_where (λ r. same_number r.room_id (some room)) (λ r. record r { room_id = none })

  -- `any_candidate_exists`, which does not ask for the range.
  unfoldable pub any_candidate_exists : Table → Bool
  any_candidate_exists t =
      any_of
        (λ r.
          same_environment r.environment c.environment
          && not_quarantined c.now r
          && (is_none r.room_id || not (room_is_live r.room_id)))
        t

  -- One round: phase 2, then phase 3.
  unfoldable pub try_round : ℕ → ℕ → Table → Option Allocation × Table
  unfolding update_where pick
  try_round room round t = elim (pick round (is_unbound round) t) [
    | some r ↦ (
      some (record { base_port = r.base_port % 65536; reclaimed_from = none }),
      update_where (is_row r) (bind_to room) t,
    )
    | none ↦ elim (pick round (is_victim round) t) [
      | some r ↦ (
        some (record { base_port = r.base_port % 65536; reclaimed_from = r.room_id }),
        update_where (is_row r) (bind_to room) t,
      )
      | none ↦ (none, t)
    ]
  ]

  -- What a round's outcome leads to: the pair, exhaustion, or the rest of the loop.
  abbrev pub after_round :
      Option Allocation × Table → (Table → AllocResult × Table) → AllocResult × Table
  after_round (some a, t) again = (AllocResult.allocated a, t)
  after_round (none, t) again = elim (any_candidate_exists t) [
    | true ↦ again t
    | false ↦ (AllocResult.exhausted, t)
  ]

  -- The loop, by the rounds that are left; each round starts from what the others committed.
  unfoldable pub contend : ℕ → ℕ → Table → AllocResult × Table
  unfolding try_round
  contend zero room t = (AllocResult.exhausted, t)
  contend (suc n) room t = after_round (try_round room n (c.others n t)) (contend n room)

  -- `allocate`: the room's own pair if it has one, else a release and the loop.
  unfoldable pub allocate : ℕ → Table → AllocResult × Table
  unfolding update_where release contend
  allocate room t = elim (first_row (keep (is_own room) t)) [
    | some r ↦ (
      AllocResult.allocated (record { base_port = r.base_port % 65536; reclaimed_from = none }),
      update_where (is_own room) touch t,
    )
    | none ↦ contend max_contention_retries room (release room t)
  ]

-- `quarantine`: the pair is out of circulation until then, and unbound.
unfoldable pub quarantine : Environment → ℕ → ℕ → ℕ → Table → Table
unfolding update_where
quarantine environment base_port now until =
    update_where (λ r. same_environment r.environment environment && r.base_port == base_port)
      (λ r. record r { quarantined_until = some until; last_activity = some now; room_id = none })

-- `touch_live_rooms`: every pair bound to a live room was used just now.
unfoldable pub touch_live_rooms : Environment → ℕ → (ℕ → Option RoomState) → Table → Table
unfolding update_where
touch_live_rooms environment now state_of =
    update_where
      (λ r.
        same_environment r.environment environment
        && elim r.room_id [ none ↦ false | some room ↦ state_is_live (state_of room) ])
      (λ r. record r { last_activity = some now })

-- `generate_series(low, high, 2)`, by the number of its terms.
unfoldable pub series : ℕ → ℕ → List ℕ
series low zero = []
series low (suc n) = low ∷ series (low + 2) n

-- The rows of `INSERT … ON CONFLICT DO NOTHING`.
abbrev pub has_row : Environment → ℕ → Table → Bool
has_row environment port =
    any_of (λ r. same_environment r.environment environment && r.base_port == port)

unfoldable pub seed : Environment → List ℕ → Table → Table
seed environment [] t = t
seed environment (p ∷ ps) t =
    let row : Reservation = record {
      environment = environment;
      base_port = p;
      room_id = none;
      last_activity = none;
      quarantined_until = none;
    } in
    seed environment ps (if has_row environment p t then t else t ++ row ∷ [])

abbrev pub is_outside : Environment → ℕ → ℕ → Reservation → Bool
is_outside environment low high r =
    same_environment r.environment environment && (ltb r.base_port low || ltb high r.base_port)

-- The reservations of `ensure_range`: rows outside the range go, every pair inside has one.
unfoldable pub ensure_range : Environment → ℕ → ℕ → Table → Table
unfolding series seed
ensure_range environment low high t =
    seed environment (series low ((high + 2 - low) / 2))
      (keep (λ r. not (is_outside environment low high r)) t)

-- The rooms that `ensure_range` queues for a restart: live ones outside the new range.
unfoldable pub stranded_live : Environment → ℕ → ℕ → (ℕ → Option RoomState) → Table → List ℕ
stranded_live environment low high state_of [] = []
stranded_live environment low high state_of (r ∷ rs) =
    let rest = stranded_live environment low high state_of rs in
    elim r.room_id [
      | none ↦ rest
      | some room ↦
          if is_outside environment low high r && state_is_live (state_of room)
          then room ∷ rest
          else rest
    ]
