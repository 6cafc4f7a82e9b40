-- ===== src/Ports/Ranges.antt =====
-- A change of the configured range: `ensure_range` of puna-core/src/model/port.rs.
use puna.Common.{
  ℕ, zero, suc, ◌+◌, ◌-◌, ◌/◌, ◌*◌, ◌≤◌, ◌<◌, ◌≡◌, refl, sym, ◌∙◌, subst, true, ◌||◌, not, none,
  List, [], ◌∷◌, ◌++◌, arith, All, All-imply, keep, Bool-cases, inl, inr, append-nil, append_assoc,
}
use puna.Ports.{Reservation, Table, Environment, has_row, is_outside, seed, series, ensure_range}

-- A row that was just added: never allocated, bound to nobody, not quarantined.
abbrev pub Fresh : Environment → Reservation → Type 0
Fresh environment r =
    (r.environment ≡ environment)
    × (r.room_id ≡ none)
    × (r.last_activity ≡ none)
    × (r.quarantined_until ≡ none)

has_row-append :
    (environment : Environment) (p : ℕ) (t u : Table)
    → has_row environment p (t ++ u) ≡ (has_row environment p t || has_row environment p u)
has_row-append environment p [] u = refl
has_row-append environment p (r ∷ rs) u = ground (arith, has_row-append environment p rs u)

-- What seeding adds: fresh rows at ports of the list, after the rows that were there.
seed-append :
    (environment : Environment) (ps : List ℕ) (P : ℕ → Type 0) (t : Table)
    → All P ps
    → (added : Table) × (seed environment ps t ≡ t ++ added)
      × All (λ r. Fresh environment r × P r.base_port) added
unfolding seed
seed-append environment [] P t h = ([], sym (append-nil t), tt)
seed-append environment (p ∷ ps) P t h = elim (Bool-cases (has_row environment p t)) [
  | inl e ↦ let (added, q, all) = seed-append environment ps P t h.1 in (added, rw e q, all)
  | inr e ↦
      let row : Reservation = record {
        environment = environment;
        base_port = p;
        room_id = none;
        last_activity = none;
        quarantined_until = none;
      } in
      let (added, q, all) = seed-append environment ps P (t ++ row ∷ []) h.1 in
      (
        row ∷ added,
        rw e (q ∙ append_assoc t (row ∷ []) added),
        (((refl, refl, refl, refl), h.0), all),
      )
]

seed-keeps :
    (environment : Environment) (ps : List ℕ) (t : Table) (p : ℕ)
    → has_row environment p t ≡ true
    → has_row environment p (seed environment ps t) ≡ true
seed-keeps environment ps t p h =
    let (added, q, _) = seed-append environment ps (λ _. Unit {0}) t (all_tt ps) in
    rw (q, has_row-append environment p t added) (ground (arith, h))
  where
    all_tt : (xs : List ℕ) → All (λ _. Unit {0}) xs
    all_tt [] = tt
    all_tt (x ∷ xs) = (tt, all_tt xs)

seed_complete :
    (environment : Environment) (ps : List ℕ) (t : Table)
    → All (λ p. has_row environment p (seed environment ps t) ≡ true) ps
unfolding seed
seed_complete environment [] t = tt
seed_complete environment (p ∷ ps) t = (
  seed-keeps environment ps _ p (elim (Bool-cases (has_row environment p t)) [
    | inl e ↦ rw e e
    | inr e ↦ rw e (has_row-append environment p t _ ∙ added environment)
  ]),
  seed_complete environment ps _,
)
  where
    added :
        (v : Environment)
        → (has_row v p t
            || has_row v p (
                record {
                  environment = v;
                  base_port = p;
                  room_id = none;
                  last_activity = none;
                  quarantined_until = none;
                }
                ∷ []))
          ≡ true
    added v = ground arith

series_bounds :
    (least low high n : ℕ)
    → least ≤ low
    → low + 2 * n ≤ high + 2
    → All (λ p. (least ≤ p) × (p ≤ high)) (series low n)
unfolding series
series_bounds least low high zero h k = tt
series_bounds least low high (suc n) h k =
    ((h, omega arith), series_bounds least (low + 2) high n (omega arith) (omega arith))

series_nth : (P : ℕ → Type 0) (low n k : ℕ) → All P (series low n) → k < n → P (low + 2 * k)
unfolding series
series_nth P low zero k h l = absurd (omega arith)
series_nth P low (suc n) zero h l = subst P (omega arith) h.0
series_nth P low (suc n) (suc k) h l =
    subst P (omega arith) (series_nth P (low + 2) n k h.1 (omega arith))

-- When the range becomes low to high, the environment's rows outside it go and the other rows stay
-- as they are, in front of rows that are new: never allocated, unbound and inside the range. If
-- low + 2 k is not above high, the pair at low + 2 k then has a row.
pub ensure_range_lem :
    (environment : Environment) (low high k : ℕ) (t : Table)
    → low + 2 * k ≤ high
    → ((added : Table) × (ensure_range environment low high t
          ≡ keep (λ r. not (is_outside environment low high r)) t ++ added)
        × All (λ r. Fresh environment r × (low ≤ r.base_port) × (r.base_port ≤ high)) added)
      × (has_row environment (low + 2 * k) (ensure_range environment low high t) ≡ true)
unfolding ensure_range
ensure_range_lem environment low high k t h =
    let pairs = series low ((high + 2 - low) / 2) in
    let inside = keep (λ r. not (is_outside environment low high r)) t in
    let (added, e, all) =
      seed-append environment pairs (λ p. (low ≤ p) × (p ≤ high)) inside
        (series_bounds low low high ((high + 2 - low) / 2) (omega arith) (omega arith)) in
    (
      (added, e, All-imply _ _ (λ r f. (f.0, f.1.0, f.1.1)) added all),
      series_nth (λ p. has_row environment p (seed environment pairs inside) ≡ true) low
          ((high + 2 - low) / 2) k (seed_complete environment pairs inside) (omega arith),
    )
