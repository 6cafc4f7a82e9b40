-- ===== src/Filters/Table/Reads.antt =====
-- What a table that is accepted says: `collect_rules` of puna-web/src/routes/filters.rs.
use puna.Common.{
  ℕ, suc, ◌+◌, ◌≡◌, refl, sym, ap, ◌∙◌, subst, ap₂, true, false, none, List, [], ◌∷◌, ◌++◌, map,
  keep, keep_pass, keep_refuse, All, arith, Bool-cases, Option-cases, inl, inr, append-nil,
  append_assoc,
}
use puna.Filters.Rule.{Std, Rule, matcher, validate, same_matcher}
use puna.Filters.Table.{
  RuleFields, RuleError, Answer, ◌>>=◌, position_from, build_rule, validated, add_rule, at_row,
  is_filled, take_row, collect_from, collect_rules,
}

-- A program that answers has an answer of its first part.
pub bind-ok :
    {A B E : Type 0} (m : Answer A E) (f : A → Answer B E) (b : B)
    → (m >>= f) ≡ Answer.ok b
    → (a : A) × (m ≡ Answer.ok a) × (f a ≡ Answer.ok b)
unfolding ◌>>=◌
bind-ok (Answer.ok a) f b h = (a, refl, h)
bind-ok (Answer.err e) f b h = ground arith

-- What every answer of a program satisfies.
data Ensures {A E : Type 0} (P : A → Type 0) (m : Answer A E) : Type 0 where
  ensures : ((a : A) → m ≡ Answer.ok a → P a) → Ensures P m

ensured :
    {A E : Type 0} {P : A → Type 0} {m : Answer A E} → Ensures P m → (a : A) → m ≡ Answer.ok a → P a
ensured (ensures h) = h

Ensures-bind :
    {A B E : Type 0} {P : B → Type 0} (m : Answer A E) {f : A → Answer B E}
    → ((a : A) → Ensures P (f a))
    → Ensures P (m >>= f)
Ensures-bind m {f = f} h =
    ensures (λ b e. let (a, at, rest) = bind-ok m f b e in ensured (h a) b rest)

module _ {F : Type 0} (std : Std F) where
  validated-Ensures : (r : Rule F) → Ensures (λ x. validate std x ≡ none) (validated std r)
  unfolding validated
  validated-Ensures r = elim (Option-cases (validate std r)) [
    | inl e ↦ ensures (λ a h. let back = h in ground arith)
    | inr (x, e) ↦ ensures (λ a h. ground arith)
  ]

  build_rule-Ensures :
      (fields : RuleFields) → Ensures (λ r. validate std r ≡ none) (build_rule std fields)
  unfolding build_rule
  build_rule-Ensures fields = Ensures-bind _ (λ name.
      Ensures-bind _
        (λ kind. Ensures-bind _ (λ direction. Ensures-bind _ (λ p. validated-Ensures _))))

  -- The rules of a ruleset are each usable, and no two match the same messages.
  abbrev pub Apart : Rule F → Rule F → Type 0
  Apart q r = same_matcher (matcher std q) (matcher std r) ≡ false

  unfoldable pub Distinct : List (Rule F) → Type 0
  Distinct [] = Unit
  Distinct (q ∷ rules) = All (Apart q) rules × Distinct rules

  position-none :
      (i : ℕ) (rule : Rule F) (rules : List (Rule F))
      → position_from i (λ r. same_matcher (matcher std r) (matcher std rule)) rules ≡ none
      → All (λ q. Apart q rule) rules
  unfolding position_from
  position-none i rule [] h = tt
  position-none i rule (q ∷ rules) h = ground (arith, position-none (suc i) rule rules)

  All-snoc :
      (P : Rule F → Type 0) (rules : List (Rule F)) (rule : Rule F)
      → All P rules
      → P rule
      → All P (rules ++ rule ∷ [])
  All-snoc P [] rule h k = (k, tt)
  All-snoc P (q ∷ rules) rule h k = (h.0, All-snoc P rules rule h.1 k)

  Distinct-snoc :
      (rules : List (Rule F)) (rule : Rule F)
      → Distinct rules
      → All (λ q. Apart q rule) rules
      → Distinct (rules ++ rule ∷ [])
  unfolding Distinct
  Distinct-snoc [] rule d a = (tt, tt)
  Distinct-snoc (q ∷ rules) rule d a =
      (All-snoc (Apart q) rules rule d.0 a.0, Distinct-snoc rules rule d.1 a.1)

  -- A rule that is added stands last, and matches what none before it matches.
  add_rule-ok :
      (row : ℕ) (collected rules : List (Rule F)) (rule : Rule F)
      → add_rule std row collected rule ≡ Answer.ok rules
      → (collected ++ rule ∷ [] ≡ rules) × All (λ q. Apart q rule) collected
  add_rule-ok row collected rules rule h =
      elim (Option-cases
        (position_from 0 (λ r. same_matcher (matcher std r) (matcher std rule)) collected)) [
          | inl e ↦ (ground arith, position-none 0 rule collected e)
          | inr (x, e) ↦ absurd (ground arith)
        ]

  at_row-ok :
      (row : ℕ) (m : Answer (Rule F) (RuleError F)) (rule : Rule F)
      → at_row std row m ≡ Answer.ok rule
      → m ≡ Answer.ok rule
  at_row-ok row (Answer.ok r) rule h = ground arith
  at_row-ok row (Answer.err e) rule h = ground arith

  -- What a ruleset under collection has: every rule is usable and matches what no other matches.
  abbrev Sound : List (Rule F) → Type 0
  Sound rules = All (λ r. validate std r ≡ none) rules × Distinct rules

  -- What is read off the filled rows in order.
  abbrev pub read_rows : List RuleFields → List (Answer (Rule F) (RuleError F))
  read_rows rows = map (build_rule std) (keep (is_filled std) rows)

  Sound-snoc :
      (collected rules : List (Rule F)) (rule : Rule F) (row : ℕ)
      → Sound collected
      → validate std rule ≡ none
      → add_rule std row collected rule ≡ Answer.ok rules
      → Sound rules
  Sound-snoc collected rules rule row s v h =
      let (e, apart) = add_rule-ok row collected rules rule h in
      subst Sound e (
        All-snoc (λ r. validate std r ≡ none) collected rule s.0 v,
        Distinct-snoc collected rule s.1 apart,
      )

  take_row-filled :
      (row : ℕ) (fields : RuleFields) (collected rules : List (Rule F))
      → is_filled std fields ≡ true
      → take_row std row fields collected ≡ Answer.ok rules
      → (rule : Rule F) × (build_rule std fields ≡ Answer.ok rule)
        × (add_rule std row collected rule ≡ Answer.ok rules)
  unfolding take_row
  take_row-filled row fields collected rules f h =
      let (rule, read, added) =
        bind-ok (at_row std row (build_rule std fields)) (add_rule std row collected) rules
          (ground arith) in
      (rule, at_row-ok row (build_rule std fields) rule read, added)

  -- The rules that the rest of the rows add.
  abbrev Adds : List RuleFields → List (Rule F) → List (Rule F) → Type 0
  Adds rows collected rules =
      (added : List (Rule F)) × (collected ++ added ≡ rules)
      × (read_rows rows ≡ map Answer.ok added)

  Adds-filled :
      (fields : RuleFields) (rows : List RuleFields) (collected next rules : List (Rule F))
      (rule : Rule F)
      → is_filled std fields ≡ true
      → build_rule std fields ≡ Answer.ok rule
      → collected ++ rule ∷ [] ≡ next
      → Adds rows next rules
      → Adds (fields ∷ rows) collected rules
  Adds-filled fields rows collected next rules rule f read e (added, sum, rest) = (
    rule ∷ added,
    sym (append_assoc collected (rule ∷ []) added) ∙ ap (λ xs. xs ++ added) e ∙ sum,
    ap (map (build_rule std)) (keep_pass (is_filled std) fields rows f)
        ∙ ap₂ (λ a rest. a ∷ rest) read rest,
  )

  Adds-skipped :
      (fields : RuleFields) (rows : List RuleFields) (collected rules : List (Rule F))
      → is_filled std fields ≡ false
      → Adds rows collected rules
      → Adds (fields ∷ rows) collected rules
  Adds-skipped fields rows collected rules f (added, sum, rest) =
      (added, sum, ap (map (build_rule std)) (keep_refuse (is_filled std) fields rows f) ∙ rest)

  take_row-skipped :
      (row : ℕ) (fields : RuleFields) (collected next : List (Rule F))
      → is_filled std fields ≡ false
      → take_row std row fields collected ≡ Answer.ok next
      → next ≡ collected
  unfolding take_row
  take_row-skipped row fields collected next f h = ground arith

  collect_from-Adds :
      (i : ℕ) (rows : List RuleFields) (collected rules : List (Rule F))
      → collect_from std i rows collected ≡ Answer.ok rules
      → Sound collected
      → Sound rules × Adds rows collected rules
  unfolding collect_from
  collect_from-Adds i [] collected rules h s =
      let e : collected ≡ rules = ground arith in
      (subst Sound e s, ([], append-nil collected ∙ e, refl))
  collect_from-Adds i (fields ∷ rows) collected rules h s =
      let (next, taken, rest) =
        bind-ok (take_row std (i + 1) fields collected) (collect_from std (suc i) rows) rules h in
      elim (Bool-cases (is_filled std fields)) [
        | inl f ↦
            let (rule, read, added) = take_row-filled (i + 1) fields collected next f taken in
            let s' =
              Sound-snoc collected next rule (i + 1) s
                (ensured (build_rule-Ensures fields) rule read) added in
            let (sound, adds) = collect_from-Adds (suc i) rows next rules rest s' in
            (
              sound,
              Adds-filled fields rows collected next rules rule f read
                  (add_rule-ok (i + 1) collected next rule added).0 adds,
            )
        | inr f ↦
            let same = take_row-skipped (i + 1) fields collected next f taken in
            let (sound, adds) =
              collect_from-Adds (suc i) rows next rules rest (subst Sound (sym same) s) in
            (
              sound,
              Adds-skipped fields rows collected rules f (subst (λ c. Adds rows c rules) same adds),
            )
      ]

  -- A table that is accepted gives rules of which each is usable and no two match the same messages,
  -- and they are what the rows that are neither struck out nor untouched read as, each of them, in
  -- the order of the page.
  pub collect_rules-Sound :
      (rows : List RuleFields) (rules : List (Rule F))
      → collect_rules std rows ≡ Answer.ok rules
      → All (λ r. validate std r ≡ none) rules
        × Distinct rules
        × (map (build_rule std) (keep (is_filled std) rows) ≡ map Answer.ok rules)
  unfolding collect_rules Distinct
  collect_rules-Sound rows rules h =
      let ((valid, distinct), (added, same, read)) = collect_from-Adds 0 rows [] rules h (tt, tt) in
      (valid, distinct, read ∙ ap (map Answer.ok) same)
