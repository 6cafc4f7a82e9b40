-- ===== src/Ports/Sticky.antt =====
-- A room comes back on its own pair: step 1 of the allocator of puna-core/src/model/port.rs.
use puna.Common.{
  ℕ, ◌%◌, ◌≡◌, refl, sym, ◌∙◌, ap, Bool, true, Option, none, some, [], ◌∷◌, map, arith,
  same_number_iff, Memᴰ, keep, mem-keep, Bool-cases, inl, inr,
}
use puna.Ports.{
  Reservation, Table, Allocation, AllocResult, Context, is_own, touch, update_where, first_row,
  allocate,
}
use puna.Ports.Soundness.{first_row-keep, allocate-Grants}

-- The database's unique index on `room_id`: two rows that are bound to one room are the same row.
abbrev pub OnePair : Table → Type 0
OnePair t =
    (room : ℕ) (r s : Reservation)
    → Memᴰ r t
    → Memᴰ s t
    → r.room_id ≡ some room
    → s.room_id ≡ some room
    → r ≡ s

-- What of a row the rest of the system depends on: whose pair it is, and its quarantine.
abbrev pub binding : Reservation → ℕ × Option ℕ × Option ℕ
binding r = (r.base_port, r.room_id, r.quarantined_until)

map-binding-touch :
    (c : Context) (p : Reservation → Bool) (t : Table)
    → map binding (update_where p (touch c) t) ≡ map binding t
unfolding update_where
map-binding-touch c p [] = refl
map-binding-touch c p (r ∷ rs) = elim (Bool-cases (p r)) [
  | inl e ↦ rw (e, map-binding-touch c p rs)
  | inr e ↦ rw (e, map-binding-touch c p rs)
]

first_of_mem :
    (p : Reservation → Bool) (t : Table) (r : Reservation)
    → Memᴰ r t
    → p r ≡ true
    → (s : Reservation) × (first_row (keep p t) ≡ some s)
first_of_mem p t r m h = go (keep p t) (mem-keep p r t m h)
  where
    go : (xs : Table) → Memᴰ r xs → (s : Reservation) × (first_row xs ≡ some s)
    go [] n = elim n [ ]
    go (x ∷ xs) n = (x, refl)

module _ (c : Context) where
  -- A room that holds a usable pair gets that pair again and takes it from nobody, whatever the
  -- other transactions do; no row changes its room, its port or its quarantine.
  pub allocate-own :
      (room : ℕ) (t : Table) (r : Reservation)
      → OnePair t
      → Memᴰ r t
      → is_own c room r ≡ true
      → ((allocate c room t).0
          ≡ AllocResult.allocated
              (record { base_port = r.base_port % 65536; reclaimed_from = none }))
        × (map binding (allocate c room t).1 ≡ map binding t)
  unfolding allocate
  allocate-own room t r unique m h =
      let (s, e) = first_of_mem (is_own c room) t r m h in
      let (n, k) = first_row-keep (is_own c room) t s e in
      let same : r ≡ s =
        unique room r s m n (ground (arith, h, same_number_iff r.room_id (some room)))
          (ground (arith, k, same_number_iff s.room_id (some room))) in
      (
        rw (e, allocate)
            (ap
              (λ (x : Reservation).
                AllocResult.allocated
                  (record { base_port = x.base_port % 65536; reclaimed_from = none }))
              (sym same)),
        rw (e, allocate) (map-binding-touch c (is_own c room) t),
      )

  -- To ask again is to get the same port: an allocation that succeeded is repeated by the next one
  -- of the same room, as long as the table meets its unique index.
  pub allocate-allocate :
      (room : ℕ) (t t' : Table) (a : Allocation)
      → allocate c room t ≡ (AllocResult.allocated a, t')
      → OnePair t'
      → (allocate c room t').0
        ≡ AllocResult.allocated (record { base_port = a.base_port; reclaimed_from = none })
  allocate-allocate room t t' a e unique =
      let ((r, m, b, u, p), _) = allocate-Grants c room t t' a e in
      (allocate-own room t' r unique m
        (ground (arith, u, b, same_number_iff r.room_id (some room)))).0
      ∙ ap (λ x. AllocResult.allocated (record { base_port = x; reclaimed_from = none })) (sym p)
