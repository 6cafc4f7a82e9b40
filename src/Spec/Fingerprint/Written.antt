-- ===== src/Spec/Fingerprint/Written.antt =====
-- The lines of the fingerprint of puna-orchestrator/src/spec/room.rs have no line feed, if what is written
-- into them has none.
use Prim.Native.String.{◌∷◌ as push, ◌++◌ as append}
use puna.Common.{
  ℕ, ◌≡◌, refl, ◌∙◌, Bool, true, false, Option, none, some, String, List, [], ◌∷◌, ◌++◌, map, arith,
  Option-cases, inl, inr, ℤ, All, subst,
}
use puna.Model.SlotAuth.{SlotAuth, as_sql}
use puna.Spec.Sizing.{outbound_budget_mib, shards, shard_queue_depth}
use puna.Spec.Fingerprint.{Draft, Text, budget_line, fixed_lines, env_line, covered, show_bool}
use puna.Spec.Fingerprint.Lines.{has, Lacks, IsLine, has-append}

append-IsLine : (s t : String) → IsLine s → IsLine t → IsLine (append s t)
append-IsLine s t f g = has-append "\n" s t ∙ ground arith

show_bool-IsLine : (b : Bool) → IsLine (show_bool b)
unfolding has
show_bool-IsLine true = refl
show_bool-IsLine false = refl

as_sql-IsLine : (auth : SlotAuth) → IsLine (as_sql auth)
unfolding has as_sql
as_sql-IsLine SlotAuth.none = refl
as_sql-IsLine SlotAuth.room = refl
as_sql-IsLine SlotAuth.per_slot = refl

All-append : (xs ys : List String) → All IsLine xs → All IsLine ys → All IsLine (xs ++ ys)
All-append [] ys f g = g
All-append (x ∷ xs) ys f g = (f.0, All-append xs ys f.1 g)

module _ (text : Text) where
  -- What the writing of numbers keeps: no line feed, and different numbers look different.
  abbrev pub WritesNumbers : Type 0
  WritesNumbers =
      ((i j : ℕ) → text.shown.of_nat i ≡ text.shown.of_nat j → i ≡ j)
      × ((i j : ℤ) → text.shown.of_int i ≡ text.shown.of_int j → i ≡ j)
      × ((i : ℕ) → IsLine (text.shown.of_nat i))
      × ((i : ℤ) → IsLine (text.shown.of_int i))

  -- A variable whose name has no equals sign, and of which nothing that is written has a line feed.
  abbrev pub IsVariable : String × String → Type 0
  IsVariable (k, v) = Lacks "=" k × IsLine k × IsLine (covered text k v)

  fixed_lines-IsLine :
      (d : Draft) (auth : SlotAuth)
      → WritesNumbers
      → IsLine d.image
      → All IsLine (fixed_lines text d auth)
  unfolding has
  fixed_lines-IsLine d auth w image = (
    refl,
    (
      append-IsLine "image=" d.image refl image,
      (
        append-IsLine "base_port=" (text.shown.of_nat d.base_port) refl (w.2 d.base_port),
        (
          append-IsLine "filtered=" (show_bool d.wants_filtered) refl
              (show_bool-IsLine d.wants_filtered),
          (
            append-IsLine "slot_count=" (text.shown.of_int d.slot_count) refl (w.3 d.slot_count),
            (
              append-IsLine "shards=" (text.shown.of_nat (shards d.slot_count)) refl
                  (w.2 (shards d.slot_count)),
              (
                append-IsLine "shard_queue_depth="
                    (text.shown.of_nat (shard_queue_depth d.slot_count)) refl
                    (w.2 (shard_queue_depth d.slot_count)),
                (
                  append-IsLine "save_interval=" (text.shown.of_int d.save_interval_secs) refl
                      (w.3 d.save_interval_secs),
                  (
                    append-IsLine "use_embedded_options=" (show_bool d.use_embedded_options) refl
                        (show_bool-IsLine d.use_embedded_options),
                    (append-IsLine "slot_auth=" (as_sql auth) refl (as_sql-IsLine auth), tt),
                  ),
                ),
              ),
            ),
          ),
        ),
      ),
    ),
  )

  budget_line-IsLine :
      (n : ℤ) (bytes : Option ℤ) (b : List String)
      → WritesNumbers
      → budget_line text n bytes ≡ some b
      → All IsLine b
  unfolding has
  budget_line-IsLine n none b w h = subst (All IsLine) {x = []} (let k = h in ground arith) tt
  budget_line-IsLine n (some bytes) b w h =
      elim (Option-cases (outbound_budget_mib n (some bytes))) [
        | inl u ↦ absurd (ground arith)
        | inr (j, u) ↦
            subst (All IsLine)
              (let k = h in
                let same : append "outbound_budget_mib=" (text.shown.of_nat j) ∷ [] ≡ b =
                  ground arith in
                same)
              (append-IsLine "outbound_budget_mib=" (text.shown.of_nat j) refl (w.2 j), tt)
      ]

  env_line-IsLine :
      (e : List (String × String)) → All IsVariable e → All IsLine (map (env_line text) e)
  unfolding has env_line
  env_line-IsLine [] h = tt
  env_line-IsLine ((k, v) ∷ e) h = (
    append-IsLine "env=" (append k (push "=" (covered text k v))) refl
        (append-IsLine k (push "=" (covered text k v)) h.0.1 h.0.2),
    env_line-IsLine e h.1,
  )

  pub lines-IsLine :
      (d : Draft) (auth : SlotAuth) (e : List (String × String)) (b : List String)
      → WritesNumbers
      → IsLine d.image
      → All IsVariable e
      → budget_line text d.slot_count d.datapackage_bytes ≡ some b
      → All IsLine (fixed_lines text d auth ++ (b ++ map (env_line text) e))
  lines-IsLine d auth e b w image variables at =
      All-append (fixed_lines text d auth) (b ++ map (env_line text) e)
        (fixed_lines-IsLine d auth w image)
        (All-append b (map (env_line text) e)
          (budget_line-IsLine d.slot_count d.datapackage_bytes b w at)
          (env_line-IsLine e variables))
