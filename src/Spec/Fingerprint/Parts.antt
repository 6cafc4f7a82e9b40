-- ===== src/Spec/Fingerprint/Parts.antt =====
-- What the lines of the fingerprint of puna-orchestrator/src/spec/room.rs say of the parts that they were
-- written from.
use Prim.Native.Char.{code}
use Prim.Native.String.{◌∷◌ as push, ◌++◌ as append}
use text.Mathlib.TextLemmas.{append_cancel_left, cons-append, head-eq_of_cons-eq}
use puna.Common.{
  ℕ, ◌≡◌, refl, sym, ap, ap₂, ◌∙◌, Bool, true, false, Option, none, some, String, List, [], ◌∷◌,
  ◌++◌, map, str_eq, arith, Option-cases, inl, inr, ℤ, All,
}
use puna.Model.SlotAuth.{SlotAuth, as_sql, parse, parse-as_sql}
use puna.Spec.Sizing.{outbound_budget_mib}
use puna.Spec.Fingerprint.{Draft, Text, budget_line, fixed_lines, env_line, covered, show_bool}
use puna.Spec.Fingerprint.Lines.{append-push_inj}
use puna.Spec.Fingerprint.Written.{IsVariable}

pub show_bool-same : (a b : Bool) → show_bool a ≡ show_bool b → a ≡ b
show_bool-same true true h = refl
show_bool-same true false h = ap (str_eq "true") h
show_bool-same false true h = ap (λ s. str_eq s "true") h
show_bool-same false false h = refl

pub as_sql-same : (a b : SlotAuth) → as_sql a ≡ as_sql b → a ≡ b
as_sql-same a b h = let read = ap parse h in ground (arith, parse-as_sql a, parse-as_sql b)

module _ (text : Text) where
  -- A variable with what the fingerprint covers of its value.
  abbrev pub entry : String × String → String × String
  entry (k, v) = (k, covered text k v)

  pub fixed_lines-same :
      (d c : Draft) (auth other : SlotAuth) (r q : List String)
      → fixed_lines text d auth ++ r ≡ fixed_lines text c other ++ q
      → (append "image=" d.image ≡ append "image=" c.image)
        × (append "base_port=" (text.shown.of_nat d.base_port)
            ≡ append "base_port=" (text.shown.of_nat c.base_port))
        × (append "filtered=" (show_bool d.wants_filtered)
            ≡ append "filtered=" (show_bool c.wants_filtered))
        × (append "slot_count=" (text.shown.of_int d.slot_count)
            ≡ append "slot_count=" (text.shown.of_int c.slot_count))
        × (append "save_interval=" (text.shown.of_int d.save_interval_secs)
            ≡ append "save_interval=" (text.shown.of_int c.save_interval_secs))
        × (append "use_embedded_options=" (show_bool d.use_embedded_options)
            ≡ append "use_embedded_options=" (show_bool c.use_embedded_options))
        × (append "slot_auth=" (as_sql auth) ≡ append "slot_auth=" (as_sql other))
        × (r ≡ q)
  fixed_lines-same d c auth other r q h = ground arith

  no_budget :
      (v : String) (rest : List String) (environment : List (String × String))
      → map (env_line text) environment ≡ append "outbound_budget_mib=" v ∷ rest
      → ⊥
  unfolding env_line
  no_budget v rest [] h = ground arith
  no_budget v rest ((k, value) ∷ environment) h =
      let line : append "env=" (append k (push "=" (covered text k value)))
          ≡ append "outbound_budget_mib=" v =
        ground arith in
      let codes = ap code (
        head-eq_of_cons-eq (
          sym (cons-append "e" "nv=" (append k (push "=" (covered text k value))))
          ∙ line
          ∙ cons-append "o" "utbound_budget_mib=" v)) in
      absurd (omega arith)

  cons_same :
      (j k : ℕ) (b b' r q : List String)
      → append "outbound_budget_mib=" (text.shown.of_nat j) ∷ [] ≡ b
      → append "outbound_budget_mib=" (text.shown.of_nat k) ∷ [] ≡ b'
      → b ++ r ≡ b' ++ q
      → (text.shown.of_nat j ≡ text.shown.of_nat k) × (r ≡ q)
  cons_same j k b b' r q e f h =
      let line : append "outbound_budget_mib=" (text.shown.of_nat j)
          ≡ append "outbound_budget_mib=" (text.shown.of_nat k) =
        ground arith in
      (append_cancel_left "outbound_budget_mib=" _ _ line, ground arith)

  pub budget-same :
      (n m : ℤ) (d c : Option ℤ) (b b' : List String) (e e' : List (String × String))
      → ((i j : ℕ) → text.shown.of_nat i ≡ text.shown.of_nat j → i ≡ j)
      → n ≡ m
      → budget_line text n d ≡ some b
      → budget_line text m c ≡ some b'
      → b ++ map (env_line text) e ≡ b' ++ map (env_line text) e'
      → (outbound_budget_mib n d ≡ outbound_budget_mib m c)
        × (map (env_line text) e ≡ map (env_line text) e')
  budget-same n m none none b b' e e' shows eq x y h =
      (ap (λ k. outbound_budget_mib k none) eq, ground arith)
  budget-same n m none (some c) b b' e e' shows eq x y h =
      elim (Option-cases (outbound_budget_mib m (some c))) [
        | inl u ↦ absurd (ground arith)
        | inr (j, u) ↦
            absurd (no_budget (text.shown.of_nat j) (map (env_line text) e') e (ground arith))
      ]
  budget-same n m (some d) none b b' e e' shows eq x y h =
      elim (Option-cases (outbound_budget_mib n (some d))) [
        | inl u ↦ absurd (ground arith)
        | inr (j, u) ↦
            absurd (no_budget (text.shown.of_nat j) (map (env_line text) e) e' (ground arith))
      ]
  budget-same n m (some d) (some c) b b' e e' shows eq x y h =
      elim (Option-cases (outbound_budget_mib n (some d))) [
        | inl u ↦ absurd (ground arith)
        | inr (j, u) ↦ elim (Option-cases (outbound_budget_mib m (some c))) [
          | inl v ↦ absurd (ground arith)
          | inr (k, v) ↦
              let (line, rest) = cons_same j k b b' _ _ (ground arith) (ground arith) h in
              (rw (u, v) (ap some (shows j k line)), rest)
        ]
      ]

  pub entry-same :
      (e e' : List (String × String))
      → All (IsVariable text) e
      → All (IsVariable text) e'
      → map (env_line text) e ≡ map (env_line text) e'
      → map entry e ≡ map entry e'
  unfolding env_line
  entry-same [] [] f g h = refl
  entry-same [] (x ∷ e') f g h = absurd (ground arith)
  entry-same (x ∷ e) [] f g h = absurd (ground arith)
  entry-same ((k, v) ∷ e) ((j, u) ∷ e') f g h =
      let line : append "env=" (append k (push "=" (covered text k v)))
          ≡ append "env=" (append j (push "=" (covered text j u))) =
        ground arith in
      let (name, value) =
        append-push_inj "=" k j (covered text k v) (covered text j u) f.0.0 g.0.0
          (append_cancel_left "env=" _ _ line) in
      ap₂ ◌∷◌ (ap₂ (λ a b. (a, b)) name value) (entry-same e e' f.1 g.1 (ground arith))
