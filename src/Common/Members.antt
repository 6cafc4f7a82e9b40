-- ===== src/Common/Members.antt =====
-- Membership in a list that is filtered, sorted or cut.
use Prim.Native.Nat.{ℕ, zero, suc}
use mathlib.Core.Path.{◌≡◌, sym, subst}
use mathlib.Core.Logic.{inl, inr}
use mathlib.Core.Bool.{Bool, true}
use mathlib.Core.Option.{Option}
use mathlib.Core.List.{List, [], ◌∷◌, Memᴰ, map}
use puna.Common.Tests.{Bool-cases}
use puna.Common.Lists.{All, All-mem, All-drop, keep, keep_pass, keep_refuse, take, drop}
use puna.Common.Sort.{key_le, place, sort_by_key, IsSorted}

module _ {ℓ} {A : Type ℓ} where
  pub mem-keep : (p : A → Bool) (a : A) (xs : List A) → Memᴰ a xs → p a ≡ true → Memᴰ a (keep p xs)
  mem-keep p a [] m h = elim m [ ]
  mem-keep p a (x ∷ xs) (Memᴰ.head e) h =
      subst (Memᴰ a) (sym (keep_pass p x xs (subst (λ y. p y ≡ true) e h))) (Memᴰ.head e)
  mem-keep p a (x ∷ xs) (Memᴰ.tail m) h = elim (Bool-cases (p x)) [
    | inl e ↦ subst (Memᴰ a) (sym (keep_pass p x xs e)) (Memᴰ.tail (mem-keep p a xs m h))
    | inr e ↦ subst (Memᴰ a) (sym (keep_refuse p x xs e)) (mem-keep p a xs m h)
  ]

  pub keep-mem :
      (p : A → Bool) (a : A) (xs : List A) → Memᴰ a (keep p xs) → Memᴰ a xs × (p a ≡ true)
  keep-mem p a [] m = elim m [ ]
  keep-mem p a (x ∷ xs) m = elim (Bool-cases (p x)) [
    | inl e ↦ kept x xs e (subst (Memᴰ a) (keep_pass p x xs e) m) (keep-mem p a xs)
    | inr e ↦
        let (n, h) = keep-mem p a xs (subst (Memᴰ a) (keep_refuse p x xs e) m) in (Memᴰ.tail n, h)
  ]
    where
      kept :
          (y : A) (ys : List A)
          → p y ≡ true
          → Memᴰ a (y ∷ keep p ys)
          → (Memᴰ a (keep p ys) → Memᴰ a ys × (p a ≡ true))
          → Memᴰ a (y ∷ ys) × (p a ≡ true)
      kept y ys h (Memᴰ.head q) rest = (Memᴰ.head q, subst (λ z. p z ≡ true) (sym q) h)
      kept y ys h (Memᴰ.tail n) rest = let (k, g) = rest n in (Memᴰ.tail k, g)

  pub mem-map {κ} :
      {B : Type κ} (f : A → B) (a : A) (xs : List A) → Memᴰ a xs → Memᴰ (f a) (map f xs)
  mem-map f a [] m = elim m [ ]
  mem-map f a (x ∷ xs) (Memᴰ.head e) = Memᴰ.head (λ i. f (e i))
  mem-map f a (x ∷ xs) (Memᴰ.tail m) = Memᴰ.tail (mem-map f a xs m)

  -- An entry of the list that fails what the rest has stands among the first n.
  pub in_take {κ} :
      (n : ℕ) (xs : List A) (P : A → Type κ) (a : A)
      → Memᴰ a xs
      → All P (drop n xs)
      → (P a → ⊥)
      → Memᴰ a (take n xs)
  in_take zero xs P a m h refuted = absurd (refuted (All-mem P a xs m h))
  in_take (suc n) [] P a m h refuted = m
  in_take (suc n) (x ∷ xs) P a (Memᴰ.head e) h refuted = Memᴰ.head e
  in_take (suc n) (x ∷ xs) P a (Memᴰ.tail m) h refuted = Memᴰ.tail (in_take n xs P a m h refuted)

  pub in_drop {κ} :
      (n : ℕ) (xs : List A) (P : A → Type κ) (a : A)
      → Memᴰ a xs
      → All P (take n xs)
      → (P a → ⊥)
      → Memᴰ a (drop n xs)
  in_drop zero xs P a m h refuted = m
  in_drop (suc n) [] P a m h refuted = m
  in_drop (suc n) (x ∷ xs) P a (Memᴰ.head e) h refuted = absurd (refuted (subst P (sym e) h.0))
  in_drop (suc n) (x ∷ xs) P a (Memᴰ.tail m) h refuted = in_drop n xs P a m h.1 refuted

module _ {ℓ} {A : Type ℓ} (key : A → Option ℕ × ℕ) where
  mem-place : (a x : A) (xs : List A) → Memᴰ a (x ∷ xs) → Memᴰ a (place key x xs)
  unfolding place
  mem-place a x [] m = m
  mem-place a x (y ∷ ys) m = elim (Bool-cases (key_le (key x) (key y))) [
    | inl e ↦ rw e m
    | inr e ↦ rw e (later m (mem-place a x ys))
  ]
    where
      later :
          Memᴰ a (x ∷ y ∷ ys)
          → (Memᴰ a (x ∷ ys) → Memᴰ a (place key x ys))
          → Memᴰ a (y ∷ place key x ys)
      later (Memᴰ.head q) deeper = Memᴰ.tail (deeper (Memᴰ.head q))
      later (Memᴰ.tail (Memᴰ.head q)) deeper = Memᴰ.head q
      later (Memᴰ.tail (Memᴰ.tail n)) deeper = Memᴰ.tail (deeper (Memᴰ.tail n))

  pub mem-sort_by_key : (a : A) (xs : List A) → Memᴰ a xs → Memᴰ a (sort_by_key key xs)
  unfolding sort_by_key
  mem-sort_by_key a [] m = m
  mem-sort_by_key a (x ∷ xs) (Memᴰ.head e) = mem-place a x (sort_by_key key xs) (Memᴰ.head e)
  mem-sort_by_key a (x ∷ xs) (Memᴰ.tail m) =
      mem-place a x (sort_by_key key xs) (Memᴰ.tail (mem-sort_by_key a xs m))

  -- In a sorted list the first n come before the rest.
  pub ordered :
      (n : ℕ) (xs : List A)
      → IsSorted key xs
      → (a b : A) → Memᴰ a (take n xs)
      → Memᴰ b (drop n xs)
      → key_le (key a) (key b) ≡ true
  ordered zero xs s a b ma mb = elim ma [ ]
  ordered (suc n) [] s a b ma mb = elim ma [ ]
  ordered (suc n) (x ∷ xs) s a b (Memᴰ.head e) mb =
      subst (λ z. key_le (key z) (key b) ≡ true) (sym e)
        (All-mem _ b (drop n xs) mb (All-drop _ n xs s.0))
  ordered (suc n) (x ∷ xs) s a b (Memᴰ.tail m) mb = ordered n xs s.1 a b m mb
