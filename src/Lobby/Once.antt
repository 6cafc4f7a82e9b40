-- ===== src/Lobby/Once.antt =====
-- No yaml is matched with two slots.
use puna.Common.{
  ℕ, suc, ◌≤◌, ◌<◌, ◌≡◌, refl, Bool, true, false, Option, none, some, String, List, [], ◌∷◌, map,
  find_first, All, All-imply, arith, ◌&&◌, ◌==◌, Option-cases, inl, inr, if◌then◌else◌, count_if,
  contains, any_of, str_eq, eq_iff,
}
use puna.Roster.Slots.{Slot}
use puna.Lobby.Names.{Text, LobbyYaml, Entry, entries}
use puna.Lobby.Passes.{
  Matched, Spent, spend, take_sole, exact, sole, names_exactly, names_cut, has_name,
  names_otherwise, matches, matched_entries, spent_by, name_left, place_left,
}
use puna.Lobby.Named.{sole-holds, find_first-holds}

-- How often the yaml at a place is matched.
abbrev pub uses : ℕ → Matched → ℕ
uses i matched = count_if (λ e. e.0 == i) (matched_entries matched)

-- The names of the slots differ.
abbrev pub named_in : String → List Slot → Bool
named_in name = any_of (λ s. str_eq name s.player_name)

abbrev pub AreNamedApart : List Slot → Type 0
AreNamedApart [] = Unit
AreNamedApart (slot ∷ roster) = (named_in slot.player_name roster ≡ false) × AreNamedApart roster

module _ (name_of : ℕ → Option String) where
  -- The entry stands at a place of its name.
  abbrev Stands : Entry → Type 0
  Stands e = name_of e.0 ≡ some e.1.player_name

  same_name :
      (i : ℕ) (name : String) (e : Entry)
      → Stands e
      → name_of i ≡ some name
      → e.0 ≡ i
      → e.1.player_name ≡ name
  same_name i name e stands at here = cc

  exact-unused :
      (i : ℕ) (name : String) (l : List Entry) (roster : List Slot)
      → All Stands l
      → name_of i ≡ some name
      → named_in name roster ≡ false
      → uses i (exact l roster) ≡ 0
  unfolding exact
  exact-unused i name l [] all at apart = refl
  exact-unused i name l (slot ∷ roster) all at apart =
      elim (Option-cases (find_first (names_exactly slot) l)) [
        | inl nothing ↦ rw nothing (exact-unused i name l roster all at (ground arith))
        | inr (e, found) ↦
            let (stands, passes) = find_first-holds Stands (names_exactly slot) l e all found in
            rw found (
              ground (
                arith,
                same_name i name e stands at,
                eq_iff e.1.player_name slot.player_name,
                eq_iff name slot.player_name,
                exact-unused i name l roster all at,
              ))
      ]

  exact-uses :
      (i : ℕ) (l : List Entry) (roster : List Slot)
      → All Stands l
      → AreNamedApart roster
      → uses i (exact l roster) ≤ 1
  unfolding exact
  exact-uses i l [] all apart = omega arith
  exact-uses i l (slot ∷ roster) all apart =
      elim (Option-cases (find_first (names_exactly slot) l)) [
        | inl nothing ↦ rw nothing (exact-uses i l roster all apart.1)
        | inr (e, found) ↦
            let (stands, passes) = find_first-holds Stands (names_exactly slot) l e all found in
            rw found (
              ground (
                arith,
                eq_iff e.1.player_name slot.player_name,
                exact-unused e.0 e.1.player_name l roster all stands,
                exact-uses i l roster all apart.1,
              ))
      ]

  -- What is spent by its place is spent by its name.
  abbrev Agree : Spent → Type 0
  Agree spent =
      (i : ℕ) (name : String)
      → contains spent.places i ≡ true
      → name_of i ≡ some name
      → has_name spent.names name ≡ true

  abbrev Covers : Spent → Matched → Type 0
  Covers spent matched = (i : ℕ) → 0 < uses i matched → contains spent.places i ≡ true

  Covers-take :
      (spent : Spent) (slot : Slot) (e : Entry) (matched : Matched)
      → Covers spent ((slot, some e) ∷ matched)
      → Covers spent matched
  Covers-take spent slot e matched covers i used = covers i (ground arith)

  Covers-wider :
      (spent : Spent) (e : Entry) (matched : Matched)
      → Covers spent matched
      → Covers (spend e spent) matched
  Covers-wider spent e matched covers i used = ground (arith, covers i used)

  Agree-wider : (spent : Spent) (e : Entry) → Stands e → Agree spent → Agree (spend e spent)
  Agree-wider spent e stands agree i name there at =
      ground (arith, agree i name, same_name i name e stands at, eq_iff name e.1.player_name)

  -- What a pass keeps of the uses of a place: one that is spent gets no more, any other one at most.
  abbrev Bounded : Spent → Matched → Matched → Type 0
  Bounded spent before after =
      (i : ℕ) → uses i after ≤ (if contains spent.places i then uses i before else 1)

  take_sole-Bounded :
      (is_left : Spent → Entry → Bool) (named : Slot → Entry → Bool) (l : List Entry)
      (spent : Spent) (matched : Matched)
      → All Stands l
      → (Ok : Spent → Type 0)
      → ((spent : Spent) (e : Entry) → Stands e → Ok spent → Ok (spend e spent))
      → ((spent : Spent) (e : Entry)
          → Ok spent
          → Stands e
          → is_left spent e ≡ true
          → contains spent.places e.0 ≡ false)
      → Ok spent
      → Covers spent matched
      → Bounded spent matched (take_sole is_left named l spent matched).0
  unfolding take_sole
  take_sole-Bounded is_left named l spent [] all Ok wider fresh ok covers i = ground arith
  take_sole-Bounded is_left named l spent ((slot, some e) ∷ matched) all Ok wider fresh ok covers
        i =
      ground (
        arith,
        covers i,
        take_sole-Bounded is_left named l spent matched all Ok wider fresh ok
            (Covers-take spent slot e matched covers) i,
      )
  take_sole-Bounded is_left named l spent ((slot, none) ∷ matched) all Ok wider fresh ok covers i =
      elim (Option-cases (sole (λ e. is_left spent e && named slot e) l)) [
        | inl nobody ↦
            rw (nobody, take_sole)
              (take_sole-Bounded is_left named l spent matched all Ok wider fresh ok covers i)
        | inr (e, found) ↦
            let (stands, passes) =
              sole-holds Stands (λ e. is_left spent e && named slot e) l e all found in
            let unspent = fresh spent e ok stands (ground arith) in
            let bound =
              take_sole-Bounded is_left named l (spend e spent) matched all Ok wider fresh
                (wider spent e stands ok) (Covers-wider spent e matched covers) i in
            rw (found, take_sole) (ground (arith, bound, unspent, covers i, covers e.0))
      ]

  -- After a pass, what is matched is spent.
  take_sole-Covers :
      (is_left : Spent → Entry → Bool) (named : Slot → Entry → Bool) (l : List Entry)
      (spent : Spent) (matched : Matched) (i : ℕ)
      → (0 < uses i matched → contains spent.places i ≡ true)
      → (contains spent.places i ≡ true
          → contains (take_sole is_left named l spent matched).1.places i ≡ true)
        × (0 < uses i (take_sole is_left named l spent matched).0
            → contains (take_sole is_left named l spent matched).1.places i ≡ true)
  unfolding take_sole
  take_sole-Covers is_left named l spent [] i covers = (λ h. h, λ h. covers h)
  take_sole-Covers is_left named l spent ((slot, some e) ∷ matched) i covers =
      let (wider, after) =
        take_sole-Covers is_left named l spent matched i (λ h. covers (ground arith)) in
      (wider, λ used. ground (arith, wider, after, covers))
  take_sole-Covers is_left named l spent ((slot, none) ∷ matched) i covers =
      elim (Option-cases (sole (λ e. is_left spent e && named slot e) l)) [
        | inl nobody ↦
            rw (nobody, take_sole) (take_sole-Covers is_left named l spent matched i covers)
        | inr (e, found) ↦
            let (wider, after) =
              take_sole-Covers is_left named l (spend e spent) matched i
                (λ h. ground (arith, covers h)) in
            rw (found, take_sole) (λ h. wider (ground arith), λ used. ground (arith, wider, after))
      ]

  exact-Stands :
      (l : List Entry) (roster : List Slot)
      → All Stands l
      → All Stands (matched_entries (exact l roster))
  unfolding exact
  exact-Stands l [] all = tt
  exact-Stands l (slot ∷ roster) all = elim (Option-cases (find_first (names_exactly slot) l)) [
    | inl nothing ↦ rw nothing (exact-Stands l roster all)
    | inr (e, found) ↦
        rw found (
          (find_first-holds Stands (names_exactly slot) l e all found).0,
          exact-Stands l roster all,
        )
  ]

  places-Agree :
      (l : List Entry) (i : ℕ) (name : String)
      → All Stands l
      → contains (map (λ e. e.0) l) i ≡ true
      → name_of i ≡ some name
      → has_name (map (λ e. e.1.player_name) l) name ≡ true
  places-Agree [] i name all there at = cc
  places-Agree (e ∷ l) i name all there at =
      ground (
        arith,
        same_name i name e all.0 at,
        eq_iff name e.1.player_name,
        places-Agree l i name all.1,
      )

places-Covers :
    (l : List Entry) (i : ℕ) → 0 < count_if (λ e. e.0 == i) l → contains (map (λ e. e.0) l) i ≡ true
places-Covers [] i used = ground arith
places-Covers (e ∷ l) i used = ground (arith, places-Covers l i)

-- The name at a place.
abbrev name_from : ℕ → List LobbyYaml → ℕ → Option String
name_from k [] i = none
name_from k (y ∷ yamls) i =
    let rest = name_from (suc k) yamls i in if k == i then some y.player_name else rest

entries-Stands :
    (k : ℕ) (yamls : List LobbyYaml)
    → All (λ e. (k ≤ e.0) × (name_from k yamls e.0 ≡ some e.1.player_name)) (entries k yamls)
entries-Stands k [] = tt
entries-Stands k (y ∷ yamls) = (
  (omega arith, ground arith),
  All-imply (λ e. (suc k ≤ e.0) × (name_from (suc k) yamls e.0 ≡ some e.1.player_name))
      (λ e. (k ≤ e.0) × (name_from k (y ∷ yamls) e.0 ≡ some e.1.player_name))
      (λ e h. (omega (arith, h.0), ground (arith, h.0, h.1))) (entries (suc k) yamls)
      (entries-Stands (suc k) yamls),
)

-- In a room whose slots have different names, the passes match no yaml with two slots.
pub matches-uses :
    (t : Text) (roster : List Slot) (yamls : List LobbyYaml) (i : ℕ)
    → AreNamedApart roster
    → uses i (matches t roster yamls).0 ≤ 1
unfolding matches
matches-uses t roster yamls i apart =
    let l = entries 0 yamls in
    let name_of = name_from 0 yamls in
    let all = All-imply _ (Stands name_of) (λ e h. h.1) l (entries-Stands 0 yamls) in
    let first = exact l roster in
    let places = λ (j : ℕ). places-Covers (matched_entries first) j in
    let begun = exact-uses name_of i l roster all apart in
    let cut =
      take_sole-Bounded name_of name_left (names_cut t) l (spent_by first) first all (Agree name_of)
        (Agree-wider name_of)
        (λ spent e ok stands h. ground (arith, ok e.0 e.1.player_name, stands))
        (λ j name.
          places-Agree name_of (matched_entries first) j name (exact-Stands name_of l roster all))
        places i in
    let otherwise =
      take_sole-Bounded name_of place_left (names_otherwise t yamls) l
        (take_sole name_left (names_cut t) l (spent_by first) first).1
        (take_sole name_left (names_cut t) l (spent_by first) first).0 all (λ spent. Unit)
        (λ spent e stands ok. tt) (λ spent e ok stands h. ground arith) tt
        (λ j.
          (take_sole-Covers name_of name_left (names_cut t) l (spent_by first) first j
            (places j)).1)
        i in
    ground (arith, begun, cut, otherwise)
