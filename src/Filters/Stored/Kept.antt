-- ===== src/Filters/Stored/Kept.antt =====
-- What is saved of a slot's filter is what is read back and what a started room is told:
-- puna-core/src/model/filter.rs and `reapply_filters` of puna-orchestrator/src/steps.rs.
use puna.Common.{
  ℕ, ◌≡◌, refl, ap, ◌∙◌, true, Option, none, some, List, [], ◌∷◌, map, arith, Bool-cases, inl, inr,
  if◌then◌else◌, ◌==◌, sort_by_key, place,
}
use mathlib.Core.Option
use puna.Filters.Rule.{Rule}
use puna.Filters.Stored.{
  SlotFilter, from_stored, to_stored, StoredFilters, rules_at, upsert, delete_at, parse_lossy,
  slot_filter, slot_filters, room_filter, Call, for_slot, reapply_filters, by_slot, own_state,
  store,
}

rules_at-upsert :
    {J : Type 0} (slot k : ℕ) (rules : J) (rows : List (ℕ × J))
    → rules_at k (upsert slot rules rows) ≡ (if slot == k then some rules else rules_at k rows)
unfolding rules_at upsert
rules_at-upsert slot k rules [] = refl
rules_at-upsert slot k rules ((i, old) ∷ rows) = ground (arith, rules_at-upsert slot k rules rows)

rules_at-delete_at :
    {J : Type 0} (slot k : ℕ) (rows : List (ℕ × J))
    → rules_at k (delete_at slot rows) ≡ (if slot == k then none else rules_at k rows)
unfolding rules_at delete_at
rules_at-delete_at slot k [] = ground arith
rules_at-delete_at slot k ((i, old) ∷ rows) = ground (arith, rules_at-delete_at slot k rows)

rules_at-place :
    {J : Type 0} (slot : ℕ) (row : ℕ × J) (rows : List (ℕ × J))
    → rules_at slot (place (λ r. (none, r.0)) row rows) ≡ rules_at slot (row ∷ rows)
unfolding rules_at place
rules_at-place slot (k, j) [] = refl
rules_at-place slot (k, j) ((i, old) ∷ rows) = ground (arith, rules_at-place slot (k, j) rows)

rules_at-sort_by_key :
    {J : Type 0} (slot : ℕ) (rows : List (ℕ × J))
    → rules_at slot (sort_by_key (λ r. (none, r.0)) rows) ≡ rules_at slot rows
unfolding rules_at sort_by_key
rules_at-sort_by_key slot [] = refl
rules_at-sort_by_key slot ((k, j) ∷ rows) =
    rules_at-place slot (k, j) (sort_by_key (λ r. (none, r.0)) rows)
    ∙ ap (λ rest. if k == slot then some j else rest) (rules_at-sort_by_key slot rows)

-- The first call for a slot, if any: the rules, or none for a DELETE.
unfoldable pub called_for : {F : Type 0} → ℕ → List (Call F) → Option (Option (List (Rule F)))
called_for slot [] = none
called_for slot (call ∷ calls) =
    let rest = called_for slot calls in
    elim call.slot [ none ↦ rest | some k ↦ if k == slot then some call.rules else rest ]

module _ {F J : Type 0} (decode : J → Option (List (Rule F))) where
  pub slot_filter-store :
      (encode : List (Rule F) → J) (s : StoredFilters J) (slot k : ℕ)
      (stored : Option (List (Rule F)))
      → ((rules : List (Rule F)) → stored ≡ some rules → decode (encode rules) ≡ some rules)
      → slot_filter decode (store encode s slot stored) k
        ≡ (if slot == k then from_stored stored else slot_filter decode s k)
  unfolding slot_filter parse_lossy from_stored
  slot_filter-store encode s slot k none back = ground (arith, rules_at-delete_at slot k s.slots)
  slot_filter-store encode s slot k (some rules) back =
      ground (arith, back rules refl, rules_at-upsert slot k (encode rules) s.slots)

  called_for-map :
      (slot : ℕ) (rows : List (ℕ × J))
      → called_for slot (map for_slot (map (own_state decode) rows))
        ≡ Option.map
            (λ j. to_stored (from_stored (some (parse_lossy decode j))))
            (rules_at slot rows)
  unfolding called_for rules_at to_stored from_stored parse_lossy
  called_for-map slot [] = refl
  called_for-map slot ((k, j) ∷ rows) = elim (Bool-cases (k == slot)) [
    | inl e ↦ rw e
    | inr e ↦ rw e (called_for-map slot rows)
  ]

  called_for-reapply_filters :
      (slot : ℕ) (room : Option (List (Rule F))) (slots : List (ℕ × SlotFilter F))
      → called_for slot (reapply_filters (some (room, slots)) true)
        ≡ called_for slot (map for_slot slots)
  unfolding reapply_filters called_for
  called_for-reapply_filters slot none [] = refl
  called_for-reapply_filters slot (some rules) [] = refl
  called_for-reapply_filters slot none (state ∷ slots) = refl
  called_for-reapply_filters slot (some rules) (state ∷ slots) = refl

  to_stored_lem : (rules : List (Rule F)) → to_stored (from_stored (some rules)) ≡ some rules
  unfolding to_stored from_stored
  to_stored_lem [] = refl
  to_stored_lem (rule ∷ rules) = refl

  -- What a slot is told for the column `rules` of its row: the ruleset, if it can be read.
  abbrev pub told : Option J → Option (Option (List (Rule F)))
  told none = none
  told (some j) = elim (decode j) [ none ↦ some (some []) | some rules ↦ some (some rules) ]

  read_lem :
      (read : Option (List (Rule F)))
      → some (to_stored (from_stored (some (elim read [ none ↦ [] | some rules ↦ rules ]))))
        ≡ elim read [ none ↦ some (some []) | some rules ↦ some (some rules) ]
  read_lem none = ap some (to_stored_lem [])
  read_lem (some rules) = ap some (to_stored_lem rules)

  to_stored-told :
      (stored : Option J)
      → Option.map (λ j. to_stored (from_stored (some (parse_lossy decode j)))) stored ≡ told stored
  unfolding parse_lossy
  to_stored-told none = refl
  to_stored-told (some j) = read_lem (decode j)

  -- A room that is started and can be reached is told, for every slot whose stored ruleset can be read,
  -- just that ruleset, the empty one of an exempt slot included, and nothing for a slot that follows the
  -- room. A slot whose stored ruleset cannot be read is told the empty one, so it is exempted.
  pub reapply_filters-called :
      (s : StoredFilters J) (slot : ℕ)
      → called_for slot (reapply_filters (some (room_filter decode s, slot_filters decode s)) true)
        ≡ told (rules_at slot s.slots)
  unfolding slot_filters
  reapply_filters-called s slot =
      called_for-reapply_filters slot (room_filter decode s) (slot_filters decode s)
      ∙ called_for-map slot (sort_by_key (by_slot decode) s.slots)
      ∙ ap (Option.map (λ j. to_stored (from_stored (some (parse_lossy decode j)))))
          (rules_at-sort_by_key slot s.slots)
      ∙ to_stored-told (rules_at slot s.slots)
