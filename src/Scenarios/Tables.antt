-- ===== src/Scenarios/Tables.antt =====
-- Tables of filter rules, and what is stored of them. A probability is a number of hundredths.
use puna.Common.{
  ℕ, ◌≡◌, ◌==◌, refl, true, false, Option, none, some, List, [], ◌∷◌, map, keep, All, if◌then◌else◌,
  str_eq, leb,
}
use puna.Filters.Direction
use puna.Filters.Direction.{Direction}
use puna.Filters.Kind
use puna.Filters.Kind.{Kind}
use puna.Filters.Rule.{Std, Rule, validate, matcher}
use puna.Filters.Stored.{
  SlotFilter, StoredFilters, rules_at, slot_filter, set_slot_filter, room_filter, slot_filters,
  reapply_filters,
}
use puna.Filters.Stored.Kept.{called_for, told, reapply_filters-called}
use puna.Filters.Table.{
  RuleFields, Answer, ◌>>=◌, position_from, build_rule, is_filled, is_untouched, collect_rules,
  slot_state_from,
}
use puna.Filters.Table.Reads.{Distinct, collect_rules-Sound}
use puna.Filters.Table.Saved.{slot_state_from-kept}

abbrev std : Std ℕ
std = record {
  trim = λ s. s;
  to_lowercase = λ s. s;
  parse_number = λ s. if str_eq s "50" then some 50 else none;
  is_percentage = λ n. leb n 100;
  is_probability = λ n. leb n 100;
  hundredth = λ n. n;
}

abbrev deathlinks : RuleFields
deathlinks = record {
  direction = some "from_slot";
  kind = some "bounce";
  tag = some "DeathLink";
  subtype = none;
  percent = some "50";
  remove = false;
}

abbrev untouched : RuleFields
untouched = record {
  direction = some "to_slot";
  kind = none;
  tag = none;
  subtype = none;
  percent = none;
  remove = false;
}

abbrev half_the_deathlinks : Rule ℕ
half_the_deathlinks = record {
  direction = Direction.from_slot;
  kind = Kind.bounce;
  tag = some "DeathLink";
  subtype = none;
  p = some 50;
}

abbrev table : List RuleFields
table = untouched ∷ deathlinks ∷ []

reads_one_rule : collect_rules std table ≡ Answer.ok (half_the_deathlinks ∷ [])
unfolding collect_rules Kind.parse Direction.parse is_untouched ◌>>=◌ matcher position_from
reads_one_rule = refl

collect_rules-Sound_example :
    All (λ r. validate std r ≡ none) (half_the_deathlinks ∷ [])
    × Distinct std (half_the_deathlinks ∷ [])
    × (map (build_rule std) (keep (is_filled std) table) ≡ map Answer.ok (half_the_deathlinks ∷ []))
collect_rules-Sound_example =
    collect_rules-Sound std table (half_the_deathlinks ∷ []) reads_one_rule

-- The rules stand for their own encoding.
abbrev encode : List (Rule ℕ) → List (Rule ℕ)
encode rules = rules

abbrev decode : List (Rule ℕ) → Option (List (Rule ℕ))
decode rules = some rules

abbrev stored : StoredFilters (List (Rule ℕ))
stored = record {
  room = some (half_the_deathlinks ∷ []);
  slots = (4, []) ∷ (2, half_the_deathlinks ∷ []) ∷ [];
}

says_exempt : slot_state_from std (untouched ∷ []) (some "exempt") ≡ Answer.ok SlotFilter.exempt
unfolding slot_state_from is_untouched ◌>>=◌
says_exempt = refl

slot_state_from-kept_example :
    slot_filter decode (set_slot_filter encode stored 3 SlotFilter.exempt) 3
    ≡ (if 3 == 3 then SlotFilter.exempt else slot_filter decode stored 3)
slot_state_from-kept_example =
    slot_state_from-kept std encode decode stored 3 3 (untouched ∷ []) (some "exempt")
      SlotFilter.exempt (λ rules e. refl) says_exempt

reapply_filters-called_example :
    called_for 4
      (reapply_filters (some (room_filter decode stored, slot_filters decode stored)) true)
    ≡ told decode (rules_at 4 stored.slots)
reapply_filters-called_example = reapply_filters-called decode stored 4
