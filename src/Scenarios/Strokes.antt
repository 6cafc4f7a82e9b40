-- ===== src/Scenarios/Strokes.antt =====
-- A writing of numbers by strokes, in which different numbers look different.
use Prim.Native.Nat.{ℕ, zero, suc, ◌+◌}
use Prim.Native.String.{String, [], ◌∷◌}
use mathlib.Core.Path.{◌≡◌, refl, ap}
use native.Mathlib.Omega.{arith}
use puna.Common.{ℤ, pos, negsuc}
use puna.Spec.Argv.{Shown}
use puna.Spec.Fingerprint.Lines.{has, IsLine}

unfoldable pub strokes : ℕ → String
strokes zero = []
strokes (suc n) = "i" ∷ strokes n

-- 0, -1, 1, -2, … are written as 0, 1, 2, 3, …
unfoldable pub signed : ℤ → String
signed (pos n) = strokes (n + n)
signed (negsuc n) = strokes (n + n + 1)

abbrev pub shown : Shown
shown = record { of_nat = strokes; of_int = signed }

pub strokes-inj : (i j : ℕ) → strokes i ≡ strokes j → i ≡ j
unfolding strokes
strokes-inj zero zero h = refl
strokes-inj zero (suc j) h = cc
strokes-inj (suc i) zero h = cc
strokes-inj (suc i) (suc j) h =
    let same : strokes i ≡ strokes j = cc in ap suc (strokes-inj i j same)

pub signed-inj : (i j : ℤ) → signed i ≡ signed j → i ≡ j
unfolding signed
signed-inj (pos i) (pos j) h = ap pos (omega (arith, strokes-inj (i + i) (j + j) h))
signed-inj (pos i) (negsuc j) h = absurd (omega (arith, strokes-inj (i + i) (j + j + 1) h))
signed-inj (negsuc i) (pos j) h = absurd (omega (arith, strokes-inj (i + i + 1) (j + j) h))
signed-inj (negsuc i) (negsuc j) h =
    ap negsuc (omega (arith, strokes-inj (i + i + 1) (j + j + 1) h))

pub strokes-IsLine : (i : ℕ) → IsLine (strokes i)
unfolding strokes has
strokes-IsLine zero = refl
strokes-IsLine (suc i) = strokes-IsLine i

pub signed-IsLine : (i : ℤ) → IsLine (signed i)
unfolding signed
signed-IsLine (pos i) = strokes-IsLine (i + i)
signed-IsLine (negsuc i) = strokes-IsLine (i + i + 1)
