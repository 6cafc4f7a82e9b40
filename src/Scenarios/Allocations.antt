-- ===== src/Scenarios/Allocations.antt =====
-- Allocations from a table of three pairs, with nobody else at work.
use puna.Common.{
  ℕ, ◌≡◌, refl, ◌↔◌, false, Option, none, some, [], ◌∷◌, map, Memᴰ, any_of, sort_by_key,
}
use puna.Model.RoomState.{RoomState}
use puna.Ports.{
  Reservation, Table, AllocResult, Context, Environment, allocate, contend, try_round, pick,
  release, ensure_range, stranded_live,
}
use puna.Ports.Soundness.{Grants, allocate-Grants}
use puna.Ports.Sticky.{OnePair, binding, allocate-allocate}
use puna.Ports.Exhaustion.{Alone, is_free, allocate-exhausted_iff}

abbrev pair : ℕ → Option ℕ → Option ℕ → Reservation
pair port room last = record {
  environment = Environment.dev;
  base_port = port;
  room_id = room;
  last_activity = last;
  quarantined_until = none;
}

-- Room 1 serves players, every other room is idle.
abbrev state_of : ℕ → Option RoomState
state_of (ℕ.suc ℕ.zero) = some RoomState.running
state_of _ = some RoomState.idle

abbrev quiet_system : Context
quiet_system = record {
  environment = Environment.dev;
  now = 100;
  range = λ e. some (record { base_low = 40000; base_high = 40004 });
  state_of = state_of;
  random = λ n port. 0;
  locked = λ n port. false;
  others = λ n t. t;
}

nobody_else : Alone quiet_system
nobody_else = record { unchanged = λ n t. refl; unlocked = λ n port. refl }

-- Room 1 is live and used its pair long ago; room 2 is idle.
abbrev taken : Table
taken = pair 40000 (some 1) (some 1) ∷ pair 40002 (some 2) (some 50) ∷ []

abbrev with_vacant : Table
with_vacant = pair 40004 none none ∷ taken

vacant_first :
    (allocate quiet_system 3 with_vacant).0
    ≡ AllocResult.allocated (record { base_port = 40004; reclaimed_from = none })
unfolding allocate contend try_round pick sort_by_key
vacant_first = refl

-- The live room keeps its pair although it used it less recently.
idle_room_loses :
    (allocate quiet_system 3 taken).0
    ≡ AllocResult.allocated (record { base_port = 40002; reclaimed_from = some 2 })
unfolding allocate contend try_round pick sort_by_key
idle_room_loses = refl

allocate-Grants_example :
    Grants quiet_system 3
      (record { base_port = 40002; reclaimed_from = some 2 })
      (allocate quiet_system 3 taken).1
unfolding allocate contend try_round pick sort_by_key
allocate-Grants_example =
    allocate-Grants quiet_system 3 taken (allocate quiet_system 3 taken).1
      (record { base_port = 40002; reclaimed_from = some 2 }) refl

abbrev alone_pair : Table
alone_pair = pair 40002 (some 2) (some 50) ∷ []

alone_pair-OnePair : OnePair alone_pair
alone_pair-OnePair room r s (Memᴰ.head p) (Memᴰ.head q) e f = cc
alone_pair-OnePair room r s (Memᴰ.head p) (Memᴰ.tail m) e f = elim m [ ]
alone_pair-OnePair room r s (Memᴰ.tail m) n e f = elim m [ ]

abbrev used_pair : Table
used_pair = pair 40002 (some 2) (some 100) ∷ []

used_pair-OnePair : OnePair used_pair
used_pair-OnePair room r s (Memᴰ.head p) (Memᴰ.head q) e f = cc
used_pair-OnePair room r s (Memᴰ.head p) (Memᴰ.tail m) e f = elim m [ ]
used_pair-OnePair room r s (Memᴰ.tail m) n e f = elim m [ ]

allocate-allocate_example :
    (allocate quiet_system 2 used_pair).0
    ≡ AllocResult.allocated (record { base_port = 40002; reclaimed_from = none })
unfolding allocate
allocate-allocate_example =
    allocate-allocate quiet_system 2 alone_pair used_pair
      (record { base_port = 40002; reclaimed_from = none }) refl used_pair-OnePair

allocate-exhausted_iff_example :
    ((allocate quiet_system 3 (pair 40000 (some 1) (some 1) ∷ [])).0 ≡ AllocResult.exhausted) ↔ (
      (false ≡ false)
      × (any_of (is_free quiet_system) (release quiet_system 3 (pair 40000 (some 1) (some 1) ∷ []))
          ≡ false))
allocate-exhausted_iff_example =
    allocate-exhausted_iff quiet_system 3 (pair 40000 (some 1) (some 1) ∷ []) nobody_else

narrowed_range :
    map binding (ensure_range Environment.dev 40002 40006 with_vacant)
    ≡ (40004, none, none) ∷ (40002, some 2, none) ∷ (40006, none, none) ∷ []
unfolding ensure_range
narrowed_range = refl

live_room_restarts : stranded_live Environment.dev 40002 40006 state_of with_vacant ≡ 1 ∷ []
unfolding stranded_live
live_room_restarts = refl
