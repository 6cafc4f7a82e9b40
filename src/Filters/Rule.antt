-- ===== src/Filters/Rule.antt =====
-- `Rule` and `Matcher` of puna-core/src/model/filter.rs. A probability is an `f64`; the operations on
-- it and on `str` that the source takes from the standard library are the record `Std`. An error is
-- told by what it names, not by its wording; the descriptions for a page are left out.
use puna.Common.{
  ℕ, ◌+◌, Bool, true, false, ◌&&◌, not, Option, none, some, String, if◌then◌else◌, same_text,
  is_some,
}
use mathlib.Core.Option
use puna.Filters.Direction.{Direction, same_direction}
use puna.Filters.Kind.{Kind, travels, is_bounce, is_print_json, same_kind}

-- `str::trim`, `str::to_lowercase`, `str::parse::<f64>`, `(0.0..=100.0).contains`,
-- `(0.0..=1.0).contains` and the division by 100.
pub record Std (F : Type 0) : Type 0 where
  pub trim : String → String
  pub to_lowercase : String → String
  pub parse_number : String → Option F
  pub is_percentage : F → Bool
  pub is_probability : F → Bool
  pub hundredth : F → F

pub record Rule (F : Type 0) : Type 0 where
  pub direction : Direction
  pub kind : Kind
  pub tag : Option String
  pub subtype : Option String
  pub p : Option F

pub record Matcher : Type 0 where
  pub direction : Direction
  pub kind : Kind
  pub tag : Option String
  pub subtype : Option String

-- The derived `==`.
abbrev pub same_matcher : Matcher → Matcher → Bool
same_matcher a b =
    same_direction a.direction b.direction
    && same_kind a.kind b.kind
    && same_text a.tag b.tag
    && same_text a.subtype b.subtype

pub data Invalid : Type 0 where
  probability travel tag_narrows subtype_narrows : Invalid

module _ {F : Type 0} (std : Std F) where
  unfoldable pub matcher : Rule F → Matcher
  matcher r = record {
    direction = r.direction;
    kind = r.kind;
    tag = Option.map std.to_lowercase r.tag;
    subtype = Option.map std.to_lowercase r.subtype;
  }

  -- `self.p` is absent or in its range.
  abbrev pub has_probability : Option F → Bool
  has_probability none = true
  has_probability (some p) = std.is_probability p

  -- `validate`, whose `Ok(())` is `none`.
  unfoldable pub validate : Rule F → Option Invalid
  unfolding travels
  validate r =
      if not (has_probability r.p)
      then some Invalid.probability
      else if not (travels r.kind r.direction)
      then some Invalid.travel
      else if is_some r.tag && not (is_bounce r.kind)
      then some Invalid.tag_narrows
      else if is_some r.subtype && not (is_print_json r.kind)
      then some Invalid.subtype_narrows
      else none

abbrev pub one_if : Bool → ℕ
one_if true = 1
one_if false = 0

unfoldable pub specificity : {F : Type 0} → Rule F → ℕ
specificity r = one_if (is_some r.tag) + one_if (is_some r.subtype)
