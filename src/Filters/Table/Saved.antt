-- ===== src/Filters/Table/Saved.antt =====
-- What a form says of a slot is what is stored of it: puna-web/src/routes/filters.rs and
-- puna-core/src/model/filter.rs.
use puna.Common.{
  ℕ, ◌≡◌, ap, ◌∙◌, Option, none, some, String, List, [], ◌∷◌, arith, if◌then◌else◌, ◌==◌,
}
use puna.Filters.Rule.{Std, Rule}
use puna.Filters.Stored.{
  SlotFilter, from_stored, to_stored, StoredFilters, slot_filter, set_slot_filter,
}
use puna.Filters.Stored.Kept.{slot_filter-store}
use puna.Filters.Table.{
  RuleFields, Answer, read_state, blank, own_or, collect_rules, slot_state_from,
}
use puna.Filters.Table.Reads.{bind-ok}

module _ {F : Type 0} (std : Std F) where
  -- A state that is not written as another: it has a rule if it has rules of its own.
  abbrev Told : SlotFilter F → Type 0
  Told state = from_stored (to_stored state) ≡ state

  read_state-Told :
      (answer : Option String) (state : SlotFilter F)
      → read_state std answer ≡ Answer.ok state
      → Told state
  unfolding read_state from_stored to_stored
  read_state-Told none state h = ground arith
  read_state-Told (some text) state h = ground arith

  own_or-Told :
      (answer : Option String) (rules : List (Rule F)) (state : SlotFilter F)
      → own_or std answer rules ≡ Answer.ok state
      → Told state
  unfolding from_stored to_stored
  own_or-Told answer [] state h = read_state-Told (blank std answer) state h
  own_or-Told answer (rule ∷ rules) state h = ground arith

  slot_state_from-Told :
      (rows : List RuleFields) (answer : Option String) (state : SlotFilter F)
      → slot_state_from std rows answer ≡ Answer.ok state
      → Told state
  unfolding slot_state_from
  slot_state_from-Told rows answer state h =
      let (rules, read, own) = bind-ok (collect_rules std rows) (own_or std answer) state h in
      own_or-Told answer rules state own

  -- What a form says of a slot and is accepted is what is read back of the slot once it is saved, and
  -- every other slot is as it was, provided that the ruleset which this state is stored as, if any, can
  -- be read back from its own JSON. Of other rulesets nothing is asked.
  pub slot_state_from-kept :
      {J : Type 0} (encode : List (Rule F) → J) (decode : J → Option (List (Rule F)))
      (s : StoredFilters J) (slot k : ℕ) (rows : List RuleFields) (answer : Option String)
      (state : SlotFilter F)
      → ((rules : List (Rule F))
          → to_stored state ≡ some rules
          → decode (encode rules) ≡ some rules)
      → slot_state_from std rows answer ≡ Answer.ok state
      → slot_filter decode (set_slot_filter encode s slot state) k
        ≡ (if slot == k then state else slot_filter decode s k)
  unfolding set_slot_filter
  slot_state_from-kept encode decode s slot k rows answer state back h =
      slot_filter-store decode encode s slot k (to_stored state) back
      ∙ ap (λ x. if slot == k then x else slot_filter decode s k)
          (slot_state_from-Told rows answer state h)
