-- ===== src/Common/Time.antt =====
-- Instants and durations. An instant (`chrono::DateTime<Utc>`) is the number of nanoseconds since
-- the earliest one that chrono represents; a duration (`chrono::TimeDelta`) is an integer of them.
use Prim.Native.Nat.{ℕ, ◌+◌, ◌-◌, ◌*◌, ◌<◌}
use mathlib.Core.Path.{◌≡◌}
use mathlib.Core.Logic.{◌↔◌}
use mathlib.Core.Bool.{Bool, true, false}
use native.Mathlib.Omega.{arith}
use puna.Common.Tests.{ltb, leb, if◌then◌else◌}

-- `negsuc n` is -(n + 1).
pub data ℤ : Type 0 where
  pos : ℕ → ℤ
  negsuc : ℕ → ℤ

-- a - b, as an integer.
abbrev pub sub_ℕ : ℕ → ℕ → ℤ
sub_ℕ a b = if leb b a then pos (a - b) else negsuc (b - a - 1)

-- a > b on integers.
abbrev pub gtb : ℤ → ℤ → Bool
gtb (pos a) (pos b) = ltb b a
gtb (pos a) (negsuc b) = true
gtb (negsuc a) (pos b) = false
gtb (negsuc a) (negsuc b) = ltb a b

-- `Duration::seconds` and `Duration::minutes`.
abbrev pub seconds : ℕ → ℕ
seconds n = n * 1000000000

abbrev pub minutes : ℕ → ℕ
minutes n = seconds (n * 60)

-- `now - since > d`.
abbrev pub longer_than : ℕ → ℕ → ℤ → Bool
longer_than now since d = gtb (sub_ℕ now since) d

pub longer_than_iff : (now since d : ℕ) → (longer_than now since (pos d) ≡ true) ↔ (since + d < now)
longer_than_iff now since d = ground arith
