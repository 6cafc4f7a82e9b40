-- ===== src/Spec/Sizing.antt =====
-- How large a room is to be: the functions of puna-orchestrator/src/spec/room.rs that size its queues,
-- its memory and its processor. They compute in `i64`. Every value is at least 0, so it is a natural
-- number, and a sum that leaves the range of `i64` is `none`: it panics or wraps, by how the program
-- is built.
pub mod Bounds
pub mod Covers
use puna.Common.{
  ℕ, suc, ◌+◌, ◌-◌, ◌*◌, ◌/◌, Bool, Option, none, some, if◌then◌else◌, leb, min, max, ℤ, pos,
  negsuc,
}
use mathlib.Core.Option

abbrev pub i64_max : ℕ
i64_max = 9223372036854775807

-- `n.max(0)`.
abbrev pub at_least_zero : ℤ → ℕ
at_least_zero (pos n) = n
at_least_zero (negsuc n) = 0

-- `datapackage_bytes.unwrap_or(0)`.
abbrev pub or_zero : Option ℤ → ℤ
or_zero none = pos 0
or_zero (some n) = n

-- `saturating_mul` and `saturating_add` of numbers that are at least 0.
unfoldable pub saturating_mul : ℕ → ℕ → ℕ
saturating_mul a b = min (a * b) i64_max

unfoldable pub saturating_add : ℕ → ℕ → ℕ
saturating_add a b = min (a + b) i64_max

-- `+` and `*`.
abbrev pub checked : ℕ → Option ℕ
checked n = if leb n i64_max then some n else none

-- `a.clamp(low, high)`.
abbrev pub clamp : ℕ → ℕ → ℕ → ℕ
clamp a low high = min (max a low) high

infixl 5 ◌>>=◌
abbrev pub ◌>>=◌ : {A B : Type 0} → Option A → (A → Option B) → Option B
m >>= f = elim m [ none ↦ none | some a ↦ f a ]

abbrev pub mib : ℕ
mib = 1048576

-- The room's outbound queue in bytes, before it is rounded up.
unfoldable pub outbound_need : ℤ → Option ℤ → ℕ
unfolding saturating_mul saturating_add
outbound_need slot_count datapackage_bytes =
    let slots = at_least_zero slot_count in
    let data_package = at_least_zero (or_zero datapackage_bytes) in
    max
      (saturating_add (saturating_mul (saturating_mul slots 3) 98304)
        (saturating_mul data_package 8))
      67108864

unfoldable pub outbound_budget_mib : ℤ → Option ℤ → Option ℕ
unfolding outbound_need
outbound_budget_mib slot_count datapackage_bytes = do
  sum ← checked (outbound_need slot_count datapackage_bytes + mib)
  some ((sum - 1) / mib)

unfoldable pub outbound_budget_bytes : ℤ → Option ℤ → Option ℕ
unfolding outbound_budget_mib saturating_mul
outbound_budget_bytes slot_count datapackage_bytes = do
  budget ← outbound_budget_mib slot_count datapackage_bytes
  some (saturating_mul budget mib)

unfoldable pub expected_connections : ℤ → ℕ
unfolding saturating_mul
expected_connections slot_count = saturating_mul (at_least_zero slot_count) 3

-- 3 connections for each of at most 2³¹ slots: no sum of these leaves `i64`.
unfoldable pub shards : ℤ → ℕ
unfolding expected_connections
shards slot_count = clamp ((expected_connections slot_count + 512 - 1) / 512) 2 32

unfoldable pub reconnect_storm : ℤ → ℕ
unfolding expected_connections shards saturating_mul
reconnect_storm slot_count =
    let width = shards slot_count in
    saturating_mul ((expected_connections slot_count + width - 1) / width) 8

unfoldable pub shard_queue_depth : ℤ → ℕ
unfolding reconnect_storm saturating_mul
shard_queue_depth slot_count =
    clamp (max (reconnect_storm slot_count) (saturating_mul (at_least_zero slot_count) 16)) 4096
      65536

unfoldable pub shard_queue_bytes : ℤ → ℕ
unfolding shards shard_queue_depth saturating_mul
shard_queue_bytes slot_count =
    saturating_mul (saturating_mul (shards slot_count) (shard_queue_depth slot_count)) 72

unfoldable pub non_queue_bytes : ℤ → ℕ
unfolding saturating_mul saturating_add
non_queue_bytes slot_count =
    saturating_add 167772160 (saturating_mul (at_least_zero slot_count) 294912)

unfoldable pub memory_request_bytes : ℤ → Option ℤ → Option ℕ
memory_request_bytes slot_count datapackage_bytes = do
  fixed ← checked (non_queue_bytes slot_count + shard_queue_bytes slot_count)
  budget ← outbound_budget_bytes slot_count datapackage_bytes
  checked (fixed + budget / 4)

-- 990 for each of at most 2³¹ slots: the product and the sum stay within `i64`.
unfoldable pub cpu_request_millicores : ℤ → ℕ
cpu_request_millicores slot_count = min (10 + (1000 - 10) * at_least_zero slot_count / 2000) 1000

unfoldable pub memory_limit_bytes : ℤ → Option ℤ → Option ℕ
memory_limit_bytes slot_count datapackage_bytes = do
  budget ← outbound_budget_bytes slot_count datapackage_bytes
  queued ← checked (budget + shard_queue_bytes slot_count)
  tripled ← checked (non_queue_bytes slot_count * 3)
  checked (queued + tripled / 2)
