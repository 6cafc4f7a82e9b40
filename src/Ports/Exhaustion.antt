-- ===== src/Ports/Exhaustion.antt =====
-- When the allocator of puna-core/src/model/port.rs finds nothing, and when it takes a pair back.
use puna.Common.{
  ℕ, zero, suc, ◌%◌, ◌≡◌, refl, sym, ◌∙◌, ap, subst, ◌↔◌, Bool, true, false, ◌&&◌, ◌||◌, not,
  Option, none, some, [], ◌∷◌, arith, is_none, keep, any_of, sort_by_key, place, Bool-cases,
  Option-cases, inl, inr, keep_pass, keep_refuse, key_le,
}
use puna.Ports.{
  Reservation, Table, Allocation, AllocResult, Context, is_usable, is_own, is_unbound, is_victim,
  room_is_live, is_row, bind_to, pick, order_key, update_where, first_row, allocate, release,
  contend, try_round, any_candidate_exists, after_round, max_contention_retries,
}

-- No row passes a test exactly when nothing is first among those that do.
first_row-keep-none :
    (p : Reservation → Bool) (t : Table) → first_row (keep p t) ≡ none → any_of p t ≡ false
first_row-keep-none p [] h = refl
first_row-keep-none p (x ∷ xs) h = elim (Bool-cases (p x)) [
  | inl e ↦ absurd (filled (keep p xs) (subst (λ ys. first_row ys ≡ none) (keep_pass p x xs e) h))
  | inr e ↦
      rw e (first_row-keep-none p xs (subst (λ ys. first_row ys ≡ none) (keep_refuse p x xs e) h))
]
  where
    filled : (ys : Table) → first_row (x ∷ ys) ≡ none → ⊥
    filled ys k = cc

keep-none : (p : Reservation → Bool) (t : Table) → any_of p t ≡ false → keep p t ≡ []
keep-none p [] h = refl
keep-none p (x ∷ xs) h = ground (arith, keep-none p xs)

module _ (c : Context) where
  first_row-place :
      (round : ℕ) (x : Reservation) (xs : Table)
      → (y : Reservation) × (first_row (place (order_key c round) x xs) ≡ some y)
  unfolding place
  first_row-place round x [] = (x, refl)
  first_row-place round x (y ∷ ys) =
      elim (Bool-cases (key_le (order_key c round x) (order_key c round y))) [
        | inl e ↦ (x, rw e)
        | inr e ↦ (y, rw e)
      ]

  pick-none :
      (round : ℕ) (p : Reservation → Bool) (t : Table)
      → pick c round p t ≡ none
      → any_of p t ≡ false
  unfolding pick sort_by_key
  pick-none round p t h = first_row-keep-none p t (go (keep p t) h)
    where
      filled : {o : Option Reservation} → ((y : Reservation) × (o ≡ some y)) → o ≡ none → ⊥
      filled (y, e) k = cc

      go :
          (xs : Table) → first_row (sort_by_key (order_key c round) xs) ≡ none → first_row xs ≡ none
      go [] k = refl
      go (x ∷ xs) k =
          absurd (filled (first_row-place round x (sort_by_key (order_key c round) xs)) k)

  pick-of-none :
      (round : ℕ) (p : Reservation → Bool) (t : Table)
      → any_of p t ≡ false
      → pick c round p t ≡ none
  unfolding pick sort_by_key
  pick-of-none round p t h =
      ap (λ xs. first_row (sort_by_key (order_key c round) xs)) (keep-none p t h)

  -- Nobody else is at work: nothing is locked, and nothing is committed between two statements.
  pub record Alone : Type 0 where
    pub unchanged : (n : ℕ) (t : Table) → c.others n t ≡ t
    pub unlocked : (n port : ℕ) → c.locked n port ≡ false

  -- A pair that could be handed out: usable, and not bound to a room that serves players.
  abbrev pub is_free : Reservation → Bool
  is_free r = is_usable c r && (is_none r.room_id || not (room_is_live c r.room_id))

  free_split :
      (round : ℕ) (t : Table)
      → ((n port : ℕ) → c.locked n port ≡ false)
      → any_of is_free t ≡ (any_of (is_unbound c round) t || any_of (is_victim c round) t)
  free_split round [] u = refl
  free_split round (r ∷ rs) u = ground (arith, u round r.base_port, free_split round rs u)

  try_round-free :
      (room round : ℕ) (t : Table)
      → Alone
      → any_of is_free t ≡ true
      → (a : Allocation) × (t' : Table) × (try_round c room round t ≡ (some a, t'))
  unfolding try_round
  try_round-free room round t alone h = elim (Option-cases (pick c round (is_unbound c round) t)) [
    | inl e ↦ elim (Option-cases (pick c round (is_victim c round) t)) [
      | inl f ↦ ground (
        arith,
        free_split round t alone.unlocked,
        pick-none round (is_unbound c round) t e,
        pick-none round (is_victim c round) t f,
      )
      | inr (r, f) ↦ (
        record { base_port = r.base_port % 65536; reclaimed_from = r.room_id },
        update_where (is_row c r) (bind_to c room) t,
        rw (e, f, try_round),
      )
    ]
    | inr (r, e) ↦ (
      record { base_port = r.base_port % 65536; reclaimed_from = none },
      update_where (is_row c r) (bind_to c room) t,
      rw (e, try_round),
    )
  ]

  try_round-full :
      (room round : ℕ) (t : Table)
      → Alone
      → any_of is_free t ≡ false
      → try_round c room round t ≡ (none, t)
  unfolding try_round
  try_round-full room round t alone h =
      let s = free_split round t alone.unlocked in
      rw (
        pick-of-none round (is_unbound c round) t (ground (arith, s)),
        pick-of-none round (is_victim c round) t (ground (arith, s)),
        try_round,
      )

  contend-full :
      (n room : ℕ) (t : Table)
      → Alone
      → any_of is_free t ≡ false
      → contend c n room t ≡ (AllocResult.exhausted, t)
  unfolding contend
  contend-full zero room t alone h = refl
  contend-full (suc n) room t alone h =
      subst
        (λ u. after_round c (try_round c room n u) (contend c n room) ≡ (AllocResult.exhausted, t))
        (sym (alone.unchanged n t))
        (subst (λ o. after_round c o (contend c n room) ≡ (AllocResult.exhausted, t))
          (sym (try_round-full room n t alone h))
          (go (any_candidate_exists c t) (contend-full n room t alone h)))
    where
      go :
          (b : Bool)
          → contend c n room t ≡ (AllocResult.exhausted, t)
          → elim b as (λ _. AllocResult × Table) [
            | true ↦ contend c n room t
            | false ↦ (AllocResult.exhausted, t)
          ]
            ≡ (AllocResult.exhausted, t)
      go true rest = rest
      go false rest = refl

  contend-free :
      (n room : ℕ) (t : Table)
      → Alone
      → any_of is_free t ≡ true
      → (a : Allocation) × ((contend c (suc n) room t).0 ≡ AllocResult.allocated a)
  unfolding contend
  contend-free n room t alone h =
      let (a, t', e) = try_round-free room n t alone h in
      (
        a,
        subst
            (λ u.
              (after_round c (try_round c room n u) (contend c n room)).0 ≡ AllocResult.allocated a)
            (sym (alone.unchanged n t))
            (subst (λ o. (after_round c o (contend c n room)).0 ≡ AllocResult.allocated a) (sym e)
              refl),
      )

  -- With no other transaction at work, an allocation is refused exactly when the room holds no
  -- usable pair of its own and, with its binding released, every usable pair is bound to a room that
  -- serves players. Otherwise it hands a pair out.
  pub allocate-exhausted_iff :
      (room : ℕ) (t : Table)
      → Alone
      → ((allocate c room t).0 ≡ AllocResult.exhausted)
        ↔ ((any_of (is_own c room) t ≡ false) × (any_of is_free (release c room t) ≡ false))
  unfolding allocate
  allocate-exhausted_iff room t alone = (refused, full)
    where
      refused :
          (allocate c room t).0 ≡ AllocResult.exhausted
          → (any_of (is_own c room) t ≡ false) × (any_of is_free (release c room t) ≡ false)
      refused h = elim (Option-cases (first_row (keep (is_own c room) t))) [
        | inl e ↦ (
          first_row-keep-none (is_own c room) t e,
          elim (Bool-cases (any_of is_free (release c room t))) [
            | inl f ↦
                let (a, g) = contend-free 15 room (release c room t) alone f in
                let h' : (contend c 16 room (release c room t)).0 ≡ AllocResult.exhausted =
                  rw (e, allocate) at h in
                cc
            | inr f ↦ f
          ],
        )
        | inr (r, e) ↦ cc (rw (e, allocate) at h)
      ]

      full :
          (any_of (is_own c room) t ≡ false) × (any_of is_free (release c room t) ≡ false)
          → (allocate c room t).0 ≡ AllocResult.exhausted
      full (h, g) =
          let e : first_row (keep (is_own c room) t) ≡ none =
            ap first_row (keep-none (is_own c room) t h) in
          rw (e, allocate)
            (ap (λ (x : AllocResult × Table). x.0)
              (contend-full max_contention_retries room (release c room t) alone g))

  -- A pair that no room holds.
  abbrev pub is_vacant : Reservation → Bool
  is_vacant r = is_usable c r && is_none r.room_id

  vacant_unbound :
      (round : ℕ) (t : Table)
      → ((n port : ℕ) → c.locked n port ≡ false)
      → any_of (is_unbound c round) t ≡ false
      → any_of is_vacant t ≡ false
  vacant_unbound round [] u h = refl
  vacant_unbound round (r ∷ rs) u h = ground (arith, u round r.base_port, vacant_unbound round rs u)

  contend_unbound :
      (n room : ℕ) (t : Table) (r : Reservation)
      → Alone
      → pick c n (is_unbound c n) t ≡ some r
      → (contend c (suc n) room t).0
        ≡ AllocResult.allocated (record { base_port = r.base_port % 65536; reclaimed_from = none })
  unfolding contend try_round
  contend_unbound n room t r alone e =
      subst
        (λ u.
          (after_round c (try_round c room n u) (contend c n room)).0
          ≡ AllocResult.allocated
              (record { base_port = r.base_port % 65536; reclaimed_from = none }))
        (sym (alone.unchanged n t)) (rw (e, try_round))

  allocated-injective :
      (a b : Allocation) → AllocResult.allocated a ≡ AllocResult.allocated b → a ≡ b
  allocated-injective a b e = cc

  contend_reclaims :
      (n room : ℕ) (t : Table) (a : Allocation) (victim : ℕ)
      → Alone
      → (contend c (suc n) room t).0 ≡ AllocResult.allocated a
      → a.reclaimed_from ≡ some victim
      → any_of is_vacant t ≡ false
  contend_reclaims n room t a victim alone h v = elim (Option-cases (pick c n (is_unbound c n) t)) [
    | inl e ↦ vacant_unbound n t alone.unlocked (pick-none n (is_unbound c n) t e)
    | inr (r, e) ↦
        let q = allocated-injective a _ (sym h ∙ contend_unbound n room t r alone e) in
        cc (ap (λ (x : Allocation). x.reclaimed_from) q)
  ]

  -- With no other transaction at work, a pair is taken back from another room only when the asking
  -- room has no usable pair of its own and no usable pair is vacant once its binding is released.
  pub allocate_reclaims :
      (room victim : ℕ) (t : Table) (a : Allocation)
      → Alone
      → (allocate c room t).0 ≡ AllocResult.allocated a
      → a.reclaimed_from ≡ some victim
      → (any_of (is_own c room) t ≡ false) × (any_of is_vacant (release c room t) ≡ false)
  unfolding allocate
  allocate_reclaims room victim t a alone h v =
      elim (Option-cases (first_row (keep (is_own c room) t))) [
        | inl e ↦ (
          first_row-keep-none (is_own c room) t e,
          contend_reclaims 15 room (release c room t) a victim alone (rw (e, allocate) at h) v,
        )
        | inr (r, e) ↦
            let h' : AllocResult.allocated
                  (record { base_port = r.base_port % 65536; reclaimed_from = none })
                ≡ AllocResult.allocated a =
              rw (e, allocate) at h in
            cc (ap (λ (x : Allocation). x.reclaimed_from) (allocated-injective _ a h'))
      ]
