-- ===== src/Common/Counts.antt =====
-- How many entries of a list pass a test.
use Prim.Native.Nat.{ℕ, suc, ◌+◌, ◌≤◌}
use mathlib.Core.Path.{◌≡◌, refl, ap}
use mathlib.Core.Bool.{Bool, true}
use mathlib.Core.List.{List, [], ◌∷◌, ◌++◌}
use mathlib.Core.Option.{Option}
use native.Mathlib.Omega.{arith}
use puna.Common.Tests.{if◌then◌else◌}
use puna.Common.Lists.{length, keep}
use puna.Common.Sort.{place, sort_by_key}

module _ {ℓ} {A : Type ℓ} where
  abbrev pub count_if : (A → Bool) → List A → ℕ
  count_if p [] = 0
  count_if p (x ∷ xs) = let rest = count_if p xs in if p x then suc rest else rest

  pub count_if-all : (xs : List A) → count_if (λ _. true) xs ≡ length xs
  count_if-all [] = refl
  count_if-all (x ∷ xs) = ap suc (count_if-all xs)

module _ {ℓ} {A : Type ℓ} (p : A → Bool) where
  pub count_if-append : (xs ys : List A) → count_if p (xs ++ ys) ≡ count_if p xs + count_if p ys
  count_if-append [] ys = omega arith
  count_if-append (x ∷ xs) ys = ground (arith, count_if-append xs ys)

  pub count_if-le-length : (xs : List A) → count_if p xs ≤ length xs
  count_if-le-length [] = omega arith
  count_if-le-length (x ∷ xs) = ground (arith, count_if-le-length xs)

  pub length-keep : (xs : List A) → length (keep p xs) ≡ count_if p xs
  length-keep [] = refl
  length-keep (x ∷ xs) = ground (arith, length-keep xs)

  count_if-place :
      (key : A → Option ℕ × ℕ) (x : A) (xs : List A)
      → count_if p (place key x xs) ≡ count_if p (x ∷ xs)
  unfolding place
  count_if-place key x [] = refl
  count_if-place key x (y ∷ ys) = ground (arith, count_if-place key x ys)

  -- Sorting moves entries and keeps their number.
  pub count_if-sort_by_key :
      (key : A → Option ℕ × ℕ) (xs : List A) → count_if p (sort_by_key key xs) ≡ count_if p xs
  unfolding sort_by_key
  count_if-sort_by_key key [] = refl
  count_if-sort_by_key key (x ∷ xs) =
      ground (arith, count_if-place key x (sort_by_key key xs), count_if-sort_by_key key xs)

pub length-sort_by_key {ℓ} :
    {A : Type ℓ} (key : A → Option ℕ × ℕ) (xs : List A) → length (sort_by_key key xs) ≡ length xs
length-sort_by_key key xs = omega (
  arith,
  count_if-all (sort_by_key key xs),
  count_if-all xs,
  count_if-sort_by_key (λ _. true) key xs,
)
