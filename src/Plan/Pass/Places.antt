-- ===== src/Plan/Pass/Places.antt =====
-- Indices of an enumerated pass: they are distinct, and sorting and filtering keep them so.
use puna.Common.{
  ℕ, zero, suc, ◌<◌, ◌≡◌, refl, Bool, false, Option, List, [], ◌∷◌, arith, All, keep, take, drop,
  contains, place, sort_by_key,
}
use puna.Plan.View.{RoomView}
use puna.Plan.Decide.{Step}
use puna.Plan.Pass.{Planned, indices, enumerate}

-- No entry of `xs` has the index of an entry of `ys`.
abbrev pub Outside : List Planned → List Planned → Type 0
Outside ys = All (λ p. contains (indices ys) p.index ≡ false)

abbrev pub Distinct : List Planned → Type 0
Distinct [] = Unit
Distinct (p ∷ ps) = (contains (indices ps) p.index ≡ false) × Distinct ps

contains_below :
    (i j : ℕ) (xs : List (RoomView × Step)) → i < j → contains (indices (enumerate j xs)) i ≡ false
unfolding enumerate
contains_below i j [] h = refl
contains_below i j ((room, s) ∷ xs) h = ground (arith, contains_below i (suc j) xs)

pub enumerate-Distinct : (i : ℕ) (xs : List (RoomView × Step)) → Distinct (enumerate i xs)
unfolding enumerate
enumerate-Distinct i [] = tt
enumerate-Distinct i ((room, s) ∷ xs) =
    (contains_below i (suc i) xs (omega arith), enumerate-Distinct (suc i) xs)

contains-keep :
    (q : Planned → Bool) (i : ℕ) (xs : List Planned)
    → contains (indices xs) i ≡ false
    → contains (indices (keep q xs)) i ≡ false
contains-keep q i [] h = refl
contains-keep q i (x ∷ xs) h = ground (arith, contains-keep q i xs)

contains-place :
    (key : Planned → Option ℕ × ℕ) (i : ℕ) (x : Planned) (xs : List Planned)
    → contains (indices (place key x xs)) i ≡ contains (indices (x ∷ xs)) i
unfolding place
contains-place key i x [] = refl
contains-place key i x (y ∷ ys) = ground (arith, contains-place key i x ys)

pub contains-sort_by_key :
    (key : Planned → Option ℕ × ℕ) (i : ℕ) (xs : List Planned)
    → contains (indices (sort_by_key key xs)) i ≡ contains (indices xs) i
unfolding sort_by_key
contains-sort_by_key key i [] = refl
contains-sort_by_key key i (x ∷ xs) =
    ground (arith, contains-place key i x (sort_by_key key xs), contains-sort_by_key key i xs)

pub contains-drop :
    (n i : ℕ) (xs : List Planned)
    → contains (indices xs) i ≡ false
    → contains (indices (drop n xs)) i ≡ false
contains-drop zero i xs h = h
contains-drop (suc n) i [] h = h
contains-drop (suc n) i (x ∷ xs) h = ground (arith, contains-drop n i xs)

pub keep-Distinct : (q : Planned → Bool) (xs : List Planned) → Distinct xs → Distinct (keep q xs)
keep-Distinct q [] d = tt
keep-Distinct q (x ∷ xs) d = ground (arith, keep-Distinct q xs d.1, contains-keep q x.index xs d.0)

place-Distinct :
    (key : Planned → Option ℕ × ℕ) (x : Planned) (xs : List Planned)
    → Distinct (x ∷ xs)
    → Distinct (place key x xs)
unfolding place
place-Distinct key x [] d = d
place-Distinct key x (y ∷ ys) d =
    ground (arith, contains-place key y.index x ys, place-Distinct key x ys)

pub sort_by_key-Distinct :
    (key : Planned → Option ℕ × ℕ) (xs : List Planned) → Distinct xs → Distinct (sort_by_key key xs)
unfolding sort_by_key
sort_by_key-Distinct key [] d = tt
sort_by_key-Distinct key (x ∷ xs) d =
    place-Distinct key x (sort_by_key key xs)
      (ground (arith, contains-sort_by_key key x.index xs), sort_by_key-Distinct key xs d.1)

-- Of distinct entries, the first n are outside the rest.
pub take-Outside-drop : (n : ℕ) (xs : List Planned) → Distinct xs → Outside (drop n xs) (take n xs)
take-Outside-drop zero xs d = tt
take-Outside-drop (suc n) [] d = tt
take-Outside-drop (suc n) (x ∷ xs) d = (contains-drop n x.index xs d.0, take-Outside-drop n xs d.1)
