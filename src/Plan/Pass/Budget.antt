-- ===== src/Plan/Pass/Budget.antt =====
-- A class of entries of a pass, sorted and capped: which of them survive the deferral of the rest.
-- `plan` of puna-orchestrator/src/plan.rs does this to the recreations and to the reaps.
use puna.Common.{
  ℕ, ◌≡◌, refl, sym, ◌∙◌, Bool, true, false, ◌||◌, not, Option, List, [], ◌∷◌, arith, All, keep,
  take, drop, Memᴰ, mem-sort_by_key, in_take, in_drop, ordered, sort_by_key-IsSorted, key_le,
  subst₂, keep_pass, keep_refuse, ◌==◌, Bool-cases, inl, inr, All-imply, All-and, All-take,
  All-sort_by_key, length-sort_by_key, contains, count_if, count_if-append, count_if-sort_by_key,
  length, length-take, take-append-drop, length-keep, sort_by_key, min, ap,
}
use puna.Plan.Pass.Places.{
  Outside, Distinct, keep-Distinct, sort_by_key-Distinct, take-Outside-drop, contains-sort_by_key,
  contains-drop,
}
use puna.Plan.Pass.{Planned, indices}

-- What is kept while the indices `ds` are deferred.
abbrev pub survives : List ℕ → Planned → Bool
survives ds p = not (contains ds p.index)

count_if-keep :
    (p q : Planned → Bool) (xs : List Planned) → count_if p (keep q xs) ≡ count_if q (keep p xs)
count_if-keep p q [] = refl
count_if-keep p q (x ∷ xs) = ground (arith, count_if-keep p q xs)

-- Every entry that is outside the deferred ones is kept.
survives-All :
    (ds : List ℕ) (xs : List Planned)
    → All (λ p. contains ds p.index ≡ false) xs
    → count_if (survives ds) xs ≡ length xs
survives-All ds [] h = refl
survives-All ds (x ∷ xs) h = ground (arith, survives-All ds xs h.1)

survives-none :
    (ds : List ℕ) (xs : List Planned)
    → All (λ p. contains ds p.index ≡ true) xs
    → count_if (survives ds) xs ≡ 0
survives-none ds [] h = refl
survives-none ds (x ∷ xs) h = ground (arith, survives-none ds xs h.1)

contains-weaken :
    (xs ys : List Planned) (x : Planned)
    → All (λ p. contains (indices xs) p.index ≡ true) ys
    → All (λ p. contains (indices (x ∷ xs)) p.index ≡ true) ys
contains-weaken xs [] x h = tt
contains-weaken xs (y ∷ ys) x h = ground (arith, contains-weaken xs ys x h.1)

contains_self : (xs : List Planned) → All (λ p. contains (indices xs) p.index ≡ true) xs
contains_self [] = tt
contains_self (x ∷ xs) = ground (arith, contains-weaken xs xs x (contains_self xs))

module _ (p q : Planned → Bool) (disjoint : (e : Planned) → p e ≡ true → q e ≡ false) where
  outside_head :
      (i : ℕ) (xs : List Planned)
      → contains (indices xs) i ≡ false
      → (contains (indices (keep q xs)) i ≡ false) × All (λ e. (i == e.index) ≡ false) (keep p xs)
  outside_head i [] h = (refl, tt)
  outside_head i (x ∷ xs) h = ground (arith, outside_head i xs)

  add_head :
      (i : ℕ) (ds : List ℕ) (xs : List Planned)
      → All (λ e. (i == e.index) ≡ false) xs
      → All (λ e. contains ds e.index ≡ false) xs
      → All (λ e. contains (i ∷ ds) e.index ≡ false) xs
  add_head i ds [] h k = tt
  add_head i ds (x ∷ xs) h k = ground (arith, add_head i ds xs h.1 k.1)

  -- Of distinct entries, those that pass one test are outside those that pass a disjoint one.
  pub keep-Outside-keep : (xs : List Planned) → Distinct xs → Outside (keep q xs) (keep p xs)
  keep-Outside-keep [] d = tt
  keep-Outside-keep (x ∷ xs) d = elim (Bool-cases (p x)) [
    | inl e ↦
        subst₂ Outside (sym (keep_refuse q x xs (disjoint x e))) (sym (keep_pass p x xs e))
          ((outside_head x.index xs d.0).0, keep-Outside-keep xs d.1)
    | inr e ↦ elim (Bool-cases (q x)) [
      | inl f ↦ subst₂ Outside (sym (keep_pass q x xs f)) (sym (keep_refuse p x xs e)) (
          add_head x.index (indices (keep q xs)) (keep p xs) (outside_head x.index xs d.0).1
            (keep-Outside-keep xs d.1))
      | inr f ↦
          subst₂ Outside (sym (keep_refuse q x xs f)) (sym (keep_refuse p x xs e))
            (keep-Outside-keep xs d.1)
    ]
  ]

  -- The first m of the class are outside what is deferred, if that is the rest of the class and
  -- some of a disjoint class.
  module _ (p_key q_key : Planned → Option ℕ × ℕ) (m n : ℕ) (ds : List ℕ) (xs : List Planned)
      (d : Distinct xs)
      (both : (i : ℕ)
        → contains ds i ≡ (
            contains (indices (drop m (sort_by_key p_key (keep p xs)))) i
            || contains (indices (drop n (sort_by_key q_key (keep q xs)))) i)) where
    pub spared : All (λ e. contains ds e.index ≡ false) (take m (sort_by_key p_key (keep p xs)))
    spared =
        All-imply _ _ (λ e h. rw (both e.index) (ground (arith, h.0, h.1))) (take m sorted)
          (All-and _ _ (take m sorted)
            (take-Outside-drop m sorted
              (sort_by_key-Distinct p_key (keep p xs) (keep-Distinct p xs d)))
            (All-take _ m sorted (
              All-sort_by_key p_key _ (keep p xs) (
                All-imply _ _
                  (λ e h.
                    contains-drop n e.index others
                      (contains-sort_by_key q_key e.index (keep q xs) ∙ h))
                  (keep p xs) (keep-Outside-keep xs d)))))
      where
        sorted : List Planned
        sorted = sort_by_key p_key (keep p xs)

        others : List Planned
        others = sort_by_key q_key (keep q xs)

    pub postponed : All (λ e. contains ds e.index ≡ true) (drop m (sort_by_key p_key (keep p xs)))
    postponed =
        All-imply _ _ (λ e h. rw (both e.index) (ground (arith, h)))
          (drop m (sort_by_key p_key (keep p xs)))
          (contains_self (drop m (sort_by_key p_key (keep p xs))))

    -- Exactly as many survive as the cap allows.
    pub capped : count_if p (keep (survives ds) xs) ≡ min m (count_if p xs)
    capped = omega (
      arith,
      count_if-keep p (survives ds) xs,
      count_if-sort_by_key (survives ds) p_key (keep p xs),
      ap (count_if (survives ds)) (take-append-drop m sorted),
      count_if-append (survives ds) (take m sorted) (drop m sorted),
      survives-All ds (take m sorted) spared,
      survives-none ds (drop m sorted) postponed,
      length-take m sorted,
      length-sort_by_key p_key (keep p xs),
      length-keep p xs,
    )
      where
        sorted : List Planned
        sorted = sort_by_key p_key (keep p xs)

    -- One that survives does not come after one that is deferred.
    pub oldest_first :
        (e f : Planned)
        → Memᴰ e (keep p xs)
        → Memᴰ f (keep p xs)
        → contains ds e.index ≡ false
        → contains ds f.index ≡ true
        → key_le (p_key e) (p_key f) ≡ true
    oldest_first e f me mf he hf =
        ordered p_key m (sort_by_key p_key (keep p xs)) (sort_by_key-IsSorted p_key (keep p xs)) e f
          (in_take m _ (λ g. contains ds g.index ≡ true) e (mem-sort_by_key p_key e (keep p xs) me)
            postponed (λ h. cc))
          (in_drop m _ (λ g. contains ds g.index ≡ false) f (mem-sort_by_key p_key f (keep p xs) mf)
            spared (λ h. cc))
