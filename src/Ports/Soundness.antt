-- ===== src/Ports/Soundness.antt =====
-- What a successful allocation of puna-core/src/model/port.rs guarantees.
use puna.Common.{
  ℕ, zero, suc, ◌%◌, ◌≡◌, refl, subst, Bool, true, false, Option, none, some, List, [], ◌∷◌, arith,
  same_number_iff, Memᴰ, All, All-imply, All-sort_by_key, keep, keep-mem, sort_by_key, Option-cases,
  inl, inr, if◌then◌else◌,
}
use puna.Ports.{
  Reservation, Table, Allocation, AllocResult, Context, room_is_live, is_usable, is_own, is_unbound,
  is_victim, is_row, bind_to, touch, update_where, first_row, pick, order_key, try_round,
  after_round, any_candidate_exists, contend, allocate, release, max_contention_retries,
}

All-self {ℓ} : {A : Type ℓ} (xs : List A) → All (λ a. Memᴰ a xs) xs
All-self [] = tt
All-self (x ∷ xs) = (Memᴰ.head refl, All-imply _ _ (λ a m. Memᴰ.tail m) xs (All-self xs))

All-first_row {κ} :
    (P : Reservation → Type κ) (t : Table) (r : Reservation) → All P t → first_row t ≡ some r → P r
All-first_row P [] r h e = cc
All-first_row P (x ∷ xs) r h e = subst P (ground (arith, e)) h.0

-- Where the first row that passes a test comes from.
pub first_row-keep :
    (p : Reservation → Bool) (t : Table) (r : Reservation)
    → first_row (keep p t) ≡ some r
    → Memᴰ r t × (p r ≡ true)
first_row-keep p t r e =
    keep-mem p r t (All-first_row (λ a. Memᴰ a (keep p t)) (keep p t) r (All-self (keep p t)) e)

pub mem-update_where :
    (p : Reservation → Bool) (f : Reservation → Reservation) (t : Table) (r : Reservation)
    → Memᴰ r t
    → p r ≡ true
    → Memᴰ (f r) (update_where p f t)
unfolding update_where
mem-update_where p f [] r m h = elim m [ ]
mem-update_where p f (x ∷ xs) r (Memᴰ.head e) h =
    Memᴰ.head (subst (λ y. f r ≡ (if p y then f y else y)) e (rw h))
mem-update_where p f (x ∷ xs) r (Memᴰ.tail m) h = Memᴰ.tail (mem-update_where p f xs r m h)

module _ (c : Context) where
  pub pick-mem :
      (round : ℕ) (p : Reservation → Bool) (t : Table) (r : Reservation)
      → pick c round p t ≡ some r
      → Memᴰ r t × (p r ≡ true)
  unfolding pick
  pick-mem round p t r e = keep-mem p r t (
      All-first_row (λ a. Memᴰ a (keep p t)) (sort_by_key (order_key c round) (keep p t)) r
        (All-sort_by_key (order_key c round) _ (keep p t) (All-self (keep p t))) e)

  -- The table holds a usable row of the room with the port that was handed out, and the pair was
  -- not taken from a room that serves players.
  abbrev pub Grants : ℕ → Allocation → Table → Type 0
  Grants room a t =
      ((r : Reservation) × Memᴰ r t
        × (r.room_id ≡ some room)
        × (is_usable c r ≡ true)
        × (a.base_port ≡ r.base_port % 65536))
      × (room_is_live c a.reclaimed_from ≡ false)

  binding :
      (room : ℕ) (r : Reservation) (t : Table)
      → Memᴰ r t
      → is_usable c r ≡ true
      → Memᴰ (bind_to c room r) (update_where (is_row c r) (bind_to c room) t)
        × (is_usable c (bind_to c room r) ≡ true)
  binding room r t m h = (
    mem-update_where (is_row c r) (bind_to c room) t r m
        (ground (arith, (same_number_iff r.room_id r.room_id).1 refl, h)),
    ground (arith, h),
  )

  abbrev RoundGrants : ℕ → Option Allocation → Table → Type 0
  RoundGrants room none t = Unit {0}
  RoundGrants room (some a) t = Grants room a t

  try_round-Grants :
      (room round : ℕ) (t : Table)
      → RoundGrants room (try_round c room round t).0 (try_round c room round t).1
  unfolding try_round
  try_round-Grants room round t = elim (Option-cases (pick c round (is_unbound c round) t)) [
    | inl e ↦ elim (Option-cases (pick c round (is_victim c round) t)) [
      | inl f ↦ rw (e, f, try_round) tt
      | inr (r, f) ↦
          let (m, h) = pick-mem round (is_victim c round) t r f in
          let (n, u) = binding room r t m (ground (arith, h)) in
          rw (e, f, try_round) ((bind_to c room r, n, refl, u, refl), ground (arith, h))
    ]
    | inr (r, e) ↦
        let (m, h) = pick-mem round (is_unbound c round) t r e in
        let (n, u) = binding room r t m (ground (arith, h)) in
        rw (e, try_round) ((bind_to c room r, n, refl, u, refl), refl)
  ]

  abbrev ResultGrants : ℕ → AllocResult → Table → Type 0
  ResultGrants room (AllocResult.allocated a) t = Grants room a t
  ResultGrants room AllocResult.exhausted t = Unit {0}

  after_round-Grants :
      (room : ℕ) (o : Option Allocation) (t : Table) (again : Table → AllocResult × Table)
      → RoundGrants room o t
      → ((u : Table) → ResultGrants room (again u).0 (again u).1)
      → ResultGrants room (after_round c (o, t) again).0 (after_round c (o, t) again).1
  after_round-Grants room (some a) t again h k = h
  after_round-Grants room none t again h k = go (any_candidate_exists c t)
    where
      answer : Bool → AllocResult × Table
      answer b = elim b [ true ↦ again t | false ↦ (AllocResult.exhausted, t) ]

      go : (b : Bool) → ResultGrants room (answer b).0 (answer b).1
      go true = k t
      go false = tt

  contend-Grants :
      (n room : ℕ) (t : Table) → ResultGrants room (contend c n room t).0 (contend c n room t).1
  unfolding contend
  contend-Grants zero room t = tt
  contend-Grants (suc n) room t =
      after_round-Grants room _ _ (contend c n room) (try_round-Grants room n (c.others n t))
        (contend-Grants n room)

  allocate-ResultGrants :
      (room : ℕ) (t : Table) → ResultGrants room (allocate c room t).0 (allocate c room t).1
  unfolding allocate
  allocate-ResultGrants room t = elim (Option-cases (first_row (keep (is_own c room) t))) [
    | inl e ↦ rw (e, allocate) (contend-Grants max_contention_retries room (release c room t))
    | inr (r, e) ↦
        let (m, h) = first_row-keep (is_own c room) t r e in
        rw (e, allocate)
          (
            (
              touch c r,
              mem-update_where (is_own c room) (touch c) t r m h,
              ground (arith, h, same_number_iff r.room_id (some room)),
              ground (arith, h),
              refl,
            ),
            refl,
          )
  ]

  -- Whatever other transactions hold, and commit before each round of the loop, the pair that an
  -- allocation hands out is bound to the room in the table it leaves, lies in the configured range
  -- of this environment, is not quarantined, and was not taken from a room that serves players.
  pub allocate-Grants :
      (room : ℕ) (t t' : Table) (a : Allocation)
      → allocate c room t ≡ (AllocResult.allocated a, t')
      → Grants room a t'
  allocate-Grants room t t' a e =
      subst (λ (r : AllocResult × Table). ResultGrants room r.0 r.1) e
        (allocate-ResultGrants room t)
