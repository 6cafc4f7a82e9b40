-- ===== src/Spec/Fingerprint/Lines.antt =====
-- When two texts of the fingerprint of puna-orchestrator/src/spec/room.rs are alike: their parts are,
-- if the parts are free of the character that ends them.
use Prim.Native.Char.{Char, code}
use Prim.Native.String.{String, [] as empty, ◌∷◌ as push, ◌++◌ as append}
use text.Mathlib.TextLemmas.{
  nil-append, cons-append, cons≢nil, head-eq_of_cons-eq, tail-eq_of_cons-eq,
}
use puna.Common.{◌≡◌, refl, sym, ap, ap₂, ◌∙◌, Bool, false, ◌||◌, List, [], ◌∷◌, ◌==◌, All, arith}
use puna.Spec.Fingerprint.{push_lines}

-- Whether a text has a character.
unfoldable pub has : Char → String → Bool
has sep empty = false
has sep (push c s) = code c == code sep || has sep s

abbrev pub Lacks : Char → String → Type 0
Lacks sep s = has sep s ≡ false

abbrev pub IsLine : String → Type 0
IsLine = Lacks "\n"

pub has-append : (sep : Char) (s t : String) → has sep (append s t) ≡ has sep s || has sep t
unfolding has
has-append sep empty t = ap (has sep) (nil-append t)
has-append sep (push c s) t = ap (has sep) (cons-append c s t) ∙ ground (arith, has-append sep s t)

Lacks-head : (sep c : Char) (s : String) → Lacks sep (push c s) → c ≡ sep → ⊥
unfolding has
Lacks-head sep c s free same = let codes = ap code same in ground arith

Lacks-tail : (sep c : Char) (s : String) → Lacks sep (push c s) → Lacks sep s
unfolding has
Lacks-tail sep c s free = ground arith

-- The part up to the first of an ending character, and what comes after it, are those of the text.
pub append-push_inj :
    (sep : Char) (a b r q : String)
    → Lacks sep a
    → Lacks sep b
    → append a (push sep r) ≡ append b (push sep q)
    → (a ≡ b) × (r ≡ q)
append-push_inj sep empty empty r q f g h =
    (refl, tail-eq_of_cons-eq (sym (nil-append (push sep r)) ∙ h ∙ nil-append (push sep q)))
append-push_inj sep empty (push c b) r q f g h = absurd (
    Lacks-head sep c b g
      (sym (head-eq_of_cons-eq (sym (nil-append (push sep r)) ∙ h ∙ cons-append c b (push sep q)))))
append-push_inj sep (push c a) empty r q f g h = absurd (
    Lacks-head sep c a f
      (head-eq_of_cons-eq (sym (cons-append c a (push sep r)) ∙ h ∙ nil-append (push sep q))))
append-push_inj sep (push c a) (push d b) r q f g h =
    let same = sym (cons-append c a (push sep r)) ∙ h ∙ cons-append d b (push sep q) in
    let (parts, rest) =
      append-push_inj sep a b r q (Lacks-tail sep c a f) (Lacks-tail sep d b g)
        (tail-eq_of_cons-eq same) in
    (ap₂ push (head-eq_of_cons-eq same) parts, rest)

append-push-ne-empty : (sep : Char) (a r : String) → append a (push sep r) ≡ empty → ⊥
append-push-ne-empty sep empty r h = cons≢nil (sym (nil-append (push sep r)) ∙ h)
append-push-ne-empty sep (push c a) r h = cons≢nil (sym (cons-append c a (push sep r)) ∙ h)

-- Texts of lines are alike only if their lines are.
pub push_lines_inj :
    (ks ls : List String) → All IsLine ks → All IsLine ls → push_lines ks ≡ push_lines ls → ks ≡ ls
unfolding push_lines
push_lines_inj [] [] f g h = refl
push_lines_inj [] (l ∷ ls) f g h = absurd (append-push-ne-empty "\n" l (push_lines ls) (sym h))
push_lines_inj (k ∷ ks) [] f g h = absurd (append-push-ne-empty "\n" k (push_lines ks) h)
push_lines_inj (k ∷ ks) (l ∷ ls) f g h =
    let (same, rest) = append-push_inj "\n" k l (push_lines ks) (push_lines ls) f.0 g.0 h in
    ap₂ ◌∷◌ same (push_lines_inj ks ls f.1 g.1 rest)
