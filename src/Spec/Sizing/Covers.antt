-- ===== src/Spec/Sizing/Covers.antt =====
-- The container holds what the room may queue: the memory of puna-orchestrator/src/spec/room.rs.
use puna.Common.{ℕ, ◌+◌, ◌-◌, ◌*◌, ◌/◌, ◌≤◌, ◌<◌, ◌≡◌, Option, some, ℤ, arith}
use native.Mathlib.Nat.{le_trans, mul-le-mul_left, mul-le-mul_right}
use puna.Spec.Sizing.{
  at_least_zero, or_zero, saturating_mul, outbound_need, outbound_budget_mib, outbound_budget_bytes,
  memory_request_bytes, memory_limit_bytes, shards, shard_queue_depth, shard_queue_bytes,
  non_queue_bytes, mib,
}
use puna.Spec.Sizing.Bounds.{shards_bounds, shard_queue_depth_bounds}

outbound_need_lem :
    (n : ℤ) (d : Option ℤ)
    → at_least_zero n < 2147483648
    → at_least_zero (or_zero d) < 72057594037927936
    → (at_least_zero n * 294912 + at_least_zero (or_zero d) * 8 ≤ outbound_need n d)
      × (67108864 ≤ outbound_need n d)
      × (outbound_need n d ≤ 1152921504606846976)
unfolding outbound_need
outbound_need_lem n d h k = ground arith

-- The budget of a room, in the unit that the room reads.
outbound_budget_lem :
    (n : ℤ) (d : Option ℤ)
    → outbound_need n d ≤ 1152921504606846976
    → (m : ℕ) × (outbound_budget_mib n d ≡ some m)
      × (outbound_budget_bytes n d ≡ some (m * mib))
      × (outbound_need n d ≤ m * mib)
      × (m * mib ≤ outbound_need n d + mib)
unfolding outbound_budget_bytes
outbound_budget_lem n d h =
    ((outbound_need n d + mib - 1) / mib, ground arith, ground arith, ground arith, ground arith)

product_bound : (a b : ℕ) → a ≤ 32 → b ≤ 65536 → a * b ≤ 2097152
product_bound a b h k = le_trans (mul-le-mul_right b h) (mul-le-mul_left 32 k)

queue_bound : (a b : ℕ) → a ≤ 32 → b ≤ 65536 → saturating_mul (saturating_mul a b) 72 ≤ 150994944
unfolding saturating_mul
queue_bound a b h k = omega (arith, product_bound a b h k)

shard_queue_bytes_bound : (n : ℤ) → at_least_zero n < 2147483648 → shard_queue_bytes n ≤ 150994944
unfolding shard_queue_bytes
shard_queue_bytes_bound n h =
    let (low, high, rest) = shards_bounds n h in
    let (least, most, others) = shard_queue_depth_bounds n h in
    queue_bound (shards n) (shard_queue_depth n) high most

non_queue_bytes_bound :
    (n : ℤ) → at_least_zero n < 2147483648 → non_queue_bytes n ≤ 1152921504606846976
unfolding non_queue_bytes
non_queue_bytes_bound n h = ground arith

limit_of :
    (n : ℤ) (d : Option ℤ) (b : ℕ)
    → outbound_budget_bytes n d ≡ some b
    → b ≤ 1152921504607895552
    → shard_queue_bytes n ≤ 150994944
    → non_queue_bytes n ≤ 1152921504606846976
    → memory_limit_bytes n d ≡ some (b + shard_queue_bytes n + non_queue_bytes n * 3 / 2)
unfolding memory_limit_bytes
limit_of n d b e h k l = ground arith

request_of :
    (n : ℤ) (d : Option ℤ) (b : ℕ)
    → outbound_budget_bytes n d ≡ some b
    → b ≤ 1152921504607895552
    → shard_queue_bytes n ≤ 150994944
    → non_queue_bytes n ≤ 1152921504606846976
    → memory_request_bytes n d ≡ some (non_queue_bytes n + shard_queue_bytes n + b / 4)
unfolding memory_request_bytes
request_of n d b e h k l = ground arith

-- A room that is told an outbound budget gets a container that holds all of that budget, the inboxes
-- of its shards and everything else that it keeps; what is requested of a node is no more than that
-- limit, and the budget has three connections of 96 KiB for each slot and eight downloads of the data
-- package, and is no less than 64 MiB. No sum on the way overflows, for a data package below 2⁵⁶ bytes.
pub memory_limit-covers :
    (n : ℤ) (d : Option ℤ)
    → at_least_zero n < 2147483648
    → at_least_zero (or_zero d) < 72057594037927936
    → (m limit request : ℕ) × (outbound_budget_mib n d ≡ some m)
      × (memory_limit_bytes n d ≡ some limit)
      × (memory_request_bytes n d ≡ some request)
      × (m * mib + shard_queue_bytes n + non_queue_bytes n ≤ limit)
      × (request ≤ limit)
      × (at_least_zero n * 294912 + at_least_zero (or_zero d) * 8 ≤ m * mib)
      × (67108864 ≤ m * mib)
memory_limit-covers n d h k =
    let (slots, floor, most) = outbound_need_lem n d h k in
    let (m, told, budget, enough, rounded) = outbound_budget_lem n d most in
    let queue = shard_queue_bytes_bound n h in
    let rest = non_queue_bytes_bound n h in
    (
      m,
      m * mib + shard_queue_bytes n + non_queue_bytes n * 3 / 2,
      non_queue_bytes n + shard_queue_bytes n + m * mib / 4,
      told,
      limit_of n d (m * mib) budget (omega arith) queue rest,
      request_of n d (m * mib) budget (omega arith) queue rest,
      omega arith,
      omega arith,
      omega arith,
      omega arith,
    )
