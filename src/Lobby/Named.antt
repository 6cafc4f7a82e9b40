-- ===== src/Lobby/Named.antt =====
-- Whom a claim names.
use puna.Common.{
  ℕ, subst, ap, sym, ◌∙◌, All-keep, ◌≡◌, refl, Bool, true, Option, none, some, List, [], ◌∷◌, map,
  keep, find_first, All, Memᴰ, arith, ◌&&◌, ◌||◌, Option-cases, Bool-cases, inl, inr,
}
use puna.Roster.Slots.{Slot}
use puna.Lobby.Names.{Text, LobbyYaml, Entry, entries}
use puna.Lobby.Passes.{
  Matched, Spent, spend, take_sole, exact, sole, only_one, names_exactly, names_cut,
  names_otherwise, matches, plan, claims_of, spent_by, name_left, place_left,
}

-- The yaml names the slot in one of the four ways.
abbrev pub names_somehow : Text → List LobbyYaml → Slot → Entry → Bool
names_somehow t yamls slot e =
    names_exactly slot e || names_cut t slot e || names_otherwise t yamls slot e

every_member : {A : Type 0} (P : A → Type 0) (xs : List A) → ((x : A) → Memᴰ x xs → P x) → All P xs
every_member P [] h = tt
every_member P (x ∷ xs) h = (h x (Memᴰ.head refl), every_member P xs (λ y m. h y (Memᴰ.tail m)))

only_one-holds :
    (P : Entry → Type 0) (l : List Entry) (e : Entry) → All P l → only_one l ≡ some e → P e
only_one-holds P [] e all h = cc
only_one-holds P (x ∷ []) e all h = subst P {x = x} (ground arith) all.0
only_one-holds P (x ∷ y ∷ l) e all h = cc

keep-passes : (test : Entry → Bool) (l : List Entry) → All (λ e. test e ≡ true) (keep test l)
keep-passes test [] = tt
keep-passes test (x ∷ l) = ground (arith, keep-passes test l)

pub sole-holds :
    (P : Entry → Type 0) (test : Entry → Bool) (l : List Entry) (e : Entry)
    → All P l
    → sole test l ≡ some e
    → P e × (test e ≡ true)
sole-holds P test l e all h = (
  only_one-holds P (keep test l) e (All-keep P test l all) h,
  only_one-holds (λ x. test x ≡ true) (keep test l) e (keep-passes test l) h,
)

pub find_first-holds :
    (P : Entry → Type 0) (test : Entry → Bool) (l : List Entry) (e : Entry)
    → All P l
    → find_first test l ≡ some e
    → P e × (test e ≡ true)
find_first-holds P test [] e all h = cc
find_first-holds P test (x ∷ l) e all h = elim (Bool-cases (test x)) [
  | inl passes ↦ (subst P {x = x} (ground arith) all.0, ground arith)
  | inr fails ↦ find_first-holds P test l e all.1 (ground arith)
]

-- A match is an entry that names its slot.
abbrev Fits : (Entry → Type 0) → (Slot → Entry → Bool) → Slot × Option Entry → Type 0
Fits P names (slot, none) = Unit
Fits P names (slot, some e) = P e × (names slot e ≡ true)

fitting :
    (P : Entry → Type 0) (names : Slot → Entry → Bool) (slot : Slot) (m : Option Entry)
    → ((e : Entry) → m ≡ some e → P e × (names slot e ≡ true))
    → Fits P names (slot, m)
fitting P names slot none h = tt
fitting P names slot (some e) h = h e refl

exact-Fits :
    (P : Entry → Type 0) (names : Slot → Entry → Bool) (l : List Entry) (roster : List Slot)
    → All P l
    → ((slot : Slot) (e : Entry) → names_exactly slot e ≡ true → names slot e ≡ true)
    → All (Fits P names) (exact l roster)
unfolding exact
exact-Fits P names l [] all widen = tt
exact-Fits P names l (slot ∷ roster) all widen = (
  fitting P names slot (find_first (names_exactly slot) l) (λ e h.
      let (p, passes) = find_first-holds P (names_exactly slot) l e all h in
      (p, widen slot e passes)),
  exact-Fits P names l roster all widen,
)

take_sole-Fits :
    (P : Entry → Type 0) (names : Slot → Entry → Bool) (is_left : Spent → Entry → Bool)
    (named : Slot → Entry → Bool) (l : List Entry) (spent : Spent) (matched : Matched)
    → All P l
    → ((slot : Slot) (e : Entry) → named slot e ≡ true → names slot e ≡ true)
    → All (Fits P names) matched
    → All (Fits P names) (take_sole is_left named l spent matched).0
unfolding take_sole
take_sole-Fits P names is_left named l spent [] all widen fits = tt
take_sole-Fits P names is_left named l spent ((slot, some e) ∷ matched) all widen fits =
    (fits.0, take_sole-Fits P names is_left named l spent matched all widen fits.1)
take_sole-Fits P names is_left named l spent ((slot, none) ∷ matched) all widen fits =
    elim (Option-cases (sole (λ e. is_left spent e && named slot e) l)) [
      | inl nobody ↦
          rw (nobody, take_sole)
            (tt, take_sole-Fits P names is_left named l spent matched all widen fits.1)
      | inr (e, found) ↦
          let (p, passes) = sole-holds P (λ e. is_left spent e && named slot e) l e all found in
          rw (found, take_sole)
            (
              (p, widen slot e (ground arith)),
              take_sole-Fits P names is_left named l (spend e spent) matched all widen fits.1,
            )
    ]

-- The passes keep the roster.
abbrev slots_of : Matched → List Slot
slots_of = map (λ m. m.0)

exact-slots_of : (l : List Entry) (roster : List Slot) → slots_of (exact l roster) ≡ roster
unfolding exact
exact-slots_of l [] = refl
exact-slots_of l (slot ∷ roster) = ap (λ rest. slot ∷ rest) (exact-slots_of l roster)

take_sole-slots_of :
    (is_left : Spent → Entry → Bool) (named : Slot → Entry → Bool) (l : List Entry) (spent : Spent)
    (matched : Matched)
    → slots_of (take_sole is_left named l spent matched).0 ≡ slots_of matched
unfolding take_sole
take_sole-slots_of is_left named l spent [] = refl
take_sole-slots_of is_left named l spent ((slot, some e) ∷ matched) =
    ap (λ rest. slot ∷ rest) (take_sole-slots_of is_left named l spent matched)
take_sole-slots_of is_left named l spent ((slot, none) ∷ matched) =
    elim (Option-cases (sole (λ e. is_left spent e && named slot e) l)) [
      | inl nobody ↦
          rw (nobody, take_sole)
            (ap (λ rest. slot ∷ rest) (take_sole-slots_of is_left named l spent matched))
      | inr (e, found) ↦
          rw (found, take_sole)
            (ap (λ rest. slot ∷ rest) (take_sole-slots_of is_left named l (spend e spent) matched))
    ]

-- A claim is of a slot that nobody holds, for the account of a yaml that names it.
abbrev pub IsClaim : Text → List Slot → List LobbyYaml → ℕ × ℕ → Type 0
IsClaim t roster yamls (n, account) =
    (slot : Slot) × (e : Entry) × Memᴰ slot roster
    × (slot.slot_number ≡ n)
    × (slot.owner_id ≡ none)
    × Memᴰ e (entries 0 yamls)
    × (e.1.discord_id ≡ account)
    × (names_somehow t yamls slot e ≡ true)

claims_of-IsClaim :
    (t : Text) (roster : List Slot) (yamls : List LobbyYaml) (matched : Matched)
    → All (Fits (λ e. Memᴰ e (entries 0 yamls)) (names_somehow t yamls)) matched
    → All (λ s. Memᴰ s roster) (slots_of matched)
    → All (IsClaim t roster yamls) (claims_of matched)
claims_of-IsClaim t roster yamls [] fits there = tt
claims_of-IsClaim t roster yamls ((slot, none) ∷ matched) fits there =
    claims_of-IsClaim t roster yamls matched fits.1 there.1
claims_of-IsClaim t roster yamls ((slot, some e) ∷ matched) fits there =
    elim (Option-cases slot.owner_id) [
      | inr (u, held) ↦ rw held (claims_of-IsClaim t roster yamls matched fits.1 there.1)
      | inl free ↦ rw free (
        (slot, e, there.0, refl, free, fits.0.0, refl, fits.0.1),
        claims_of-IsClaim t roster yamls matched fits.1 there.1,
      )
    ]

matches-Fits :
    (t : Text) (roster : List Slot) (yamls : List LobbyYaml)
    → All (Fits (λ e. Memᴰ e (entries 0 yamls)) (names_somehow t yamls)) (matches t roster yamls).0
unfolding matches
matches-Fits t roster yamls =
    let l = entries 0 yamls in
    let all = every_member (λ e. Memᴰ e l) l (λ e m. m) in
    let first = exact l roster in
    take_sole-Fits (λ e. Memᴰ e l) (names_somehow t yamls) place_left (names_otherwise t yamls) l
      (take_sole name_left (names_cut t) l (spent_by first) first).1
      (take_sole name_left (names_cut t) l (spent_by first) first).0 all (λ slot e h. ground arith)
      (take_sole-Fits (λ e. Memᴰ e l) (names_somehow t yamls) name_left (names_cut t) l
        (spent_by first) first all (λ slot e h. ground arith)
        (exact-Fits (λ e. Memᴰ e l) (names_somehow t yamls) l roster all
          (λ slot e h. ground arith)))

matches-slots_of :
    (t : Text) (roster : List Slot) (yamls : List LobbyYaml)
    → slots_of (matches t roster yamls).0 ≡ roster
unfolding matches
matches-slots_of t roster yamls =
    let l = entries 0 yamls in
    let first = exact l roster in
    take_sole-slots_of place_left (names_otherwise t yamls) l
      (take_sole name_left (names_cut t) l (spent_by first) first).1
      (take_sole name_left (names_cut t) l (spent_by first) first).0
    ∙ take_sole-slots_of name_left (names_cut t) l (spent_by first) first
    ∙ exact-slots_of l roster

-- Every claim of a plan is of a slot of the roster that nobody holds, for the account of a yaml of the
-- lobby that names the slot: by its name as it stands or cut to size, by a trigger's name, or by its
-- template with the number of the slot.
pub plan-IsClaim :
    (t : Text) (roster : List Slot) (yamls : List LobbyYaml)
    → All (IsClaim t roster yamls) (plan t roster yamls).claims
unfolding plan
plan-IsClaim t roster yamls =
    claims_of-IsClaim t roster yamls (matches t roster yamls).0 (matches-Fits t roster yamls) (
      subst (All (λ s. Memᴰ s roster)) (sym (matches-slots_of t roster yamls))
        (every_member (λ s. Memᴰ s roster) roster (λ s m. m)))
