-- ===== src/Common/Sort.antt =====
-- `sort_by_key`: a stable sort by an order of keys.
use Prim.Native.Nat.{ℕ}
use mathlib.Core.Path.{◌≡◌}
use mathlib.Core.Bool.{Bool, true, false, ◌&&◌, ◌||◌}
use mathlib.Core.Logic.{inl, inr}
use mathlib.Core.List.{List, [], ◌∷◌}
use mathlib.Core.Option.{Option, none, some}
use native.Mathlib.Omega.{arith}
use puna.Common.Tests.{ltb, leb, ◌==◌, if◌then◌else◌, Bool-cases}
use puna.Common.Lists.{All}

-- The derived order of `(Option<DateTime>, RoomId)`: `None` first, then the instant, then the id.
abbrev pub key_le : Option ℕ × ℕ → Option ℕ × ℕ → Bool
key_le (none, i) (none, j) = leb i j
key_le (none, i) (some u, j) = true
key_le (some t, i) (none, j) = false
key_le (some t, i) (some u, j) = ltb t u || (t == u && leb i j)

pub key_le_total : (a b : Option ℕ × ℕ) → key_le a b ≡ false → key_le b a ≡ true
key_le_total (none, i) (none, j) h = ground arith
key_le_total (none, i) (some u, j) h = ground arith
key_le_total (some t, i) (none, j) h = ground arith
key_le_total (some t, i) (some u, j) h = ground arith

pub key_le_trans :
    (a b c : Option ℕ × ℕ) → key_le a b ≡ true → key_le b c ≡ true → key_le a c ≡ true
key_le_trans (none, i) (none, j) (none, k) h g = ground arith
key_le_trans (none, i) (none, j) (some v, k) h g = ground arith
key_le_trans (none, i) (some u, j) (none, k) h g = ground arith
key_le_trans (none, i) (some u, j) (some v, k) h g = ground arith
key_le_trans (some t, i) (none, j) c h g = ground arith
key_le_trans (some t, i) (some u, j) (none, k) h g = ground arith
key_le_trans (some t, i) (some u, j) (some v, k) h g = ground arith

module _ {ℓ} {A : Type ℓ} (key : A → Option ℕ × ℕ) where
  unfoldable pub place : A → List A → List A
  place x [] = x ∷ []
  place x (y ∷ ys) =
      let rest = place x ys in if key_le (key x) (key y) then x ∷ y ∷ ys else y ∷ rest

  unfoldable pub sort_by_key : List A → List A
  unfolding place
  sort_by_key [] = []
  sort_by_key (x ∷ xs) = place x (sort_by_key xs)

  -- Every entry of the list has a key that is not below `k`.
  abbrev pub AllAfter : Option ℕ × ℕ → List A → Type 0
  AllAfter k = All (λ y. key_le k (key y) ≡ true)

  abbrev pub IsSorted : List A → Type 0
  IsSorted [] = Unit
  IsSorted (x ∷ xs) = AllAfter (key x) xs × IsSorted xs

  pub AllAfter-trans :
      (j k : Option ℕ × ℕ) (xs : List A) → key_le j k ≡ true → AllAfter k xs → AllAfter j xs
  AllAfter-trans j k [] h a = tt
  AllAfter-trans j k (x ∷ xs) h a = (key_le_trans j k (key x) h a.0, AllAfter-trans j k xs h a.1)

  place-AllAfter :
      (k : Option ℕ × ℕ) (x : A) (xs : List A)
      → key_le k (key x) ≡ true
      → AllAfter k xs
      → AllAfter k (place x xs)
  unfolding place
  place-AllAfter k x [] h a = (h, tt)
  place-AllAfter k x (y ∷ ys) h a = ground (arith, place-AllAfter k x ys h a.1)

  place-IsSorted : (x : A) (xs : List A) → IsSorted xs → IsSorted (place x xs)
  unfolding place
  place-IsSorted x [] s = (tt, tt)
  place-IsSorted x (y ∷ ys) s = ground (
    arith,
    key_le_total (key x) (key y),
    AllAfter-trans (key x) (key y) ys,
    place-AllAfter (key y) x ys,
    place-IsSorted x ys s.1,
  )

  pub sort_by_key-IsSorted : (xs : List A) → IsSorted (sort_by_key xs)
  unfolding sort_by_key
  sort_by_key-IsSorted [] = tt
  sort_by_key-IsSorted (x ∷ xs) = place-IsSorted x (sort_by_key xs) (sort_by_key-IsSorted xs)

  All-place {κ} : (P : A → Type κ) (x : A) (xs : List A) → P x → All P xs → All P (place x xs)
  unfolding place
  All-place P x [] h k = (h, tt)
  All-place P x (y ∷ ys) h k = elim (Bool-cases (key_le (key x) (key y))) [
    | inl e ↦ rw e (h, k)
    | inr e ↦ rw e (k.0, All-place P x ys h k.1)
  ]

  pub All-sort_by_key {κ} : (P : A → Type κ) (xs : List A) → All P xs → All P (sort_by_key xs)
  unfolding sort_by_key
  All-sort_by_key P [] h = tt
  All-sort_by_key P (x ∷ xs) h = All-place P x (sort_by_key xs) h.0 (All-sort_by_key P xs h.1)
