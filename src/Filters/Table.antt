-- ===== src/Filters/Table.antt =====
-- The table of rules as a form brings it: puna-web/src/routes/filters.rs, from `RuleFields` to
-- `slot_state_from`.
pub mod Reads
pub mod Saved
use puna.Common.{
  ℕ, suc, ◌+◌, Bool, true, false, ◌&&◌, not, Option, none, some, String, List, [], ◌∷◌, ◌++◌,
  if◌then◌else◌, str_eq, is_none, any_of,
}
use mathlib.Core.Option
use puna.Filters.Direction
use puna.Filters.Direction.{Direction}
use puna.Filters.Kind
use puna.Filters.Kind.{Kind, refused_kinds}
use puna.Filters.Rule.{Std, Rule, Matcher, Invalid, matcher, validate, same_matcher}
use puna.Filters.Stored.{SlotFilter}

pub record RuleFields : Type 0 where
  pub direction : Option String
  pub kind : Option String
  pub tag : Option String
  pub subtype : Option String
  pub percent : Option String
  pub remove : Bool

pub data RuleError (F : Type 0) : Type 0 where
  no_kind : RuleError F
  refused_kind unknown_kind not_a_number : String → RuleError F
  no_direction : RuleError F
  not_a_percentage : F → RuleError F
  invalid : Invalid → RuleError F

pub data TableError (F : Type 0) : Type 0 where
  bad_row : ℕ → RuleError F → TableError F
  duplicate : ℕ → ℕ → TableError F
  unanswered : TableError F

-- `Result<A, E>`.
pub data Answer (A E : Type 0) : Type 0 where
  ok : A → Answer A E
  err : E → Answer A E

infixl 5 ◌>>=◌
unfoldable pub ◌>>=◌ : {A B E : Type 0} → Answer A E → (A → Answer B E) → Answer B E
ok a >>= f = f a
err e >>= f = err e

-- `ok_or_else`.
abbrev pub ok_or : {A E : Type 0} → Option A → E → Answer A E
ok_or none e = err e
ok_or (some a) e = ok a

-- `position`, from an index on.
unfoldable pub position_from : {A : Type 0} → ℕ → (A → Bool) → List A → Option ℕ
position_from i p [] = none
position_from i p (x ∷ xs) = let rest = position_from (suc i) p xs in if p x then some i else rest

module _ {F : Type 0} (std : Std F) where
  -- `.filter(|v| !v.is_empty())` of a trimmed value.
  abbrev pub filled_text : String → Option String
  filled_text s = if str_eq s "" then none else some s

  unfoldable pub blank : Option String → Option String
  blank none = none
  blank (some value) = filled_text (std.trim value)

  -- The probability of the form's percentage.
  abbrev pub in_range : F → Answer (Option F) (RuleError F)
  in_range percent =
      if std.is_percentage percent
      then ok (some (std.hundredth percent))
      else err (RuleError.not_a_percentage percent)

  unfoldable pub read_percent : Option String → Answer (Option F) (RuleError F)
  read_percent none = ok none
  read_percent (some text) = elim (std.parse_number text) [
    | none ↦ err (RuleError.not_a_number text)
    | some percent ↦ in_range percent
  ]

  -- `Kind::parse`, after the kinds that are refused by name.
  unfoldable pub read_kind : String → Answer Kind (RuleError F)
  unfolding Kind.parse
  read_kind name =
      if any_of (str_eq name) refused_kinds
      then err (RuleError.refused_kind name)
      else ok_or (Kind.parse name) (RuleError.unknown_kind name)

  abbrev pub read_direction : Option String → Answer Direction (RuleError F)
  read_direction none = err RuleError.no_direction
  read_direction (some d) = ok_or (Direction.parse d) RuleError.no_direction

  -- `rule.validate()?; Ok(rule)`.
  unfoldable pub validated : Rule F → Answer (Rule F) (RuleError F)
  unfolding validate
  validated r = elim (validate std r) [ none ↦ ok r | some e ↦ err (RuleError.invalid e) ]

  unfoldable pub build_rule : RuleFields → Answer (Rule F) (RuleError F)
  unfolding blank read_percent read_kind validated
  build_rule fields = do
    name ← ok_or (blank fields.kind) RuleError.no_kind
    kind ← read_kind name
    direction ← read_direction (blank fields.direction)
    p ← read_percent (blank fields.percent)
    validated (record {
      direction = direction;
      kind = kind;
      tag = blank fields.tag;
      subtype = blank fields.subtype;
      p = p;
    })

  unfoldable pub is_untouched : RuleFields → Bool
  unfolding blank
  is_untouched fields =
      is_none (blank fields.kind)
      && is_none (blank fields.tag)
      && is_none (blank fields.subtype)
      && is_none (blank fields.percent)

  -- What a rule adds to the rules before it: itself, unless one of them matches the same.
  abbrev pub add_rule : ℕ → List (Rule F) → Rule F → Answer (List (Rule F)) (TableError F)
  add_rule row collected rule =
      elim (position_from 0 (λ r. same_matcher (matcher std r) (matcher std rule)) collected) [
        | none ↦ ok (collected ++ rule ∷ [])
        | some earlier ↦ err (TableError.duplicate row (earlier + 1))
      ]

  -- `map_err` with the row.
  abbrev pub at_row : ℕ → Answer (Rule F) (RuleError F) → Answer (Rule F) (TableError F)
  at_row row (ok r) = ok r
  at_row row (err e) = err (TableError.bad_row row e)

  -- A row that is neither struck out nor untouched.
  abbrev pub is_filled : RuleFields → Bool
  is_filled fields = not fields.remove && not (is_untouched fields)

  -- The body of the loop.
  unfoldable pub take_row : ℕ → RuleFields → List (Rule F) → Answer (List (Rule F)) (TableError F)
  unfolding build_rule
  take_row row fields collected =
      if is_filled fields
      then (at_row row (build_rule fields) >>= add_rule row collected)
      else ok collected

  unfoldable pub collect_from :
      ℕ → List RuleFields → List (Rule F) → Answer (List (Rule F)) (TableError F)
  unfolding take_row
  collect_from position [] collected = ok collected
  collect_from position (fields ∷ rest) collected =
      take_row (position + 1) fields collected >>= collect_from (suc position) rest

  unfoldable pub collect_rules : List RuleFields → Answer (List (Rule F)) (TableError F)
  unfolding collect_from
  collect_rules rows = collect_from 0 rows []

  -- The answer to what an empty table means.
  unfoldable pub read_state : Option String → Answer (SlotFilter F) (TableError F)
  read_state none = err TableError.unanswered
  read_state (some state) =
      if str_eq state "follow"
      then ok SlotFilter.follows
      else if str_eq state "exempt"
      then ok SlotFilter.exempt
      else err TableError.unanswered

  abbrev pub own_or : Option String → List (Rule F) → Answer (SlotFilter F) (TableError F)
  own_or state [] = read_state (blank state)
  own_or state (rule ∷ rules) = ok (SlotFilter.own (rule ∷ rules))

  unfoldable pub slot_state_from :
      List RuleFields → Option String → Answer (SlotFilter F) (TableError F)
  unfolding collect_rules read_state
  slot_state_from rows state = collect_rules rows >>= own_or state
