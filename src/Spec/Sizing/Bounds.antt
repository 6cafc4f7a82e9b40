-- ===== src/Spec/Sizing/Bounds.antt =====
-- The range of each size of puna-orchestrator/src/spec/room.rs.
use puna.Common.{◌*◌, ◌≤◌, ◌<◌, min, ℤ, arith}
use puna.Spec.Sizing.{at_least_zero, shards, shard_queue_depth}

-- The fan-out is 2 to 32 wide, and wide enough that no shard has more than 512 of the expected
-- connections unless it is 32 wide.
pub shards_bounds :
    (n : ℤ)
    → at_least_zero n < 2147483648
    → (2 ≤ shards n) × (shards n ≤ 32) × (min (3 * at_least_zero n) 16384 ≤ 512 * shards n)
unfolding shards
shards_bounds n h = ground arith

-- A shard's queue takes 4096 to 65536 messages, and up to that 16 for every slot.
pub shard_queue_depth_bounds :
    (n : ℤ)
    → at_least_zero n < 2147483648
    → (4096 ≤ shard_queue_depth n)
      × (shard_queue_depth n ≤ 65536)
      × (min (16 * at_least_zero n) 65536 ≤ shard_queue_depth n)
unfolding shard_queue_depth
shard_queue_depth_bounds n h = ground arith
