-- ===== src/Lobby/Passes.antt =====
-- `plan` of puna-web/src/lobby.rs: its passes over the slots of a room and the yamls of a lobby.
use puna.Common.{
  ℕ, Bool, not, Option, none, some, String, List, [], ◌∷◌, map, if◌then◌else◌, ◌&&◌, ◌||◌, str_eq,
  keep, find_first, any_of, count_if, contains, is_some, is_none,
}
use puna.Roster.Slots.{Slot}
use puna.Lobby.Names.{Text, LobbyYaml, Entry, entries, resolved_name, ap_name, name_number}

-- The one entry that passes.
abbrev pub only_one : List Entry → Option Entry
only_one [] = none
only_one (e ∷ []) = some e
only_one (e ∷ d ∷ rest) = none

abbrev pub sole : (Entry → Bool) → List Entry → Option Entry
sole test l = only_one (keep test l)

abbrev pub has_name : List String → String → Bool
has_name names name = any_of (str_eq name) names

-- What is spent: names, and places in the list.
pub record Spent : Type 0 where
  pub names : List String
  pub places : List ℕ

abbrev pub spend : Entry → Spent → Spent
spend e spent = record { names = e.1.player_name ∷ spent.names; places = e.0 ∷ spent.places }

abbrev pub Matched : Type 0
Matched = List (Slot × Option Entry)

-- The loop of the later passes: a slot without a match takes the one entry that is left and names it.
unfoldable pub take_sole :
    (Spent → Entry → Bool) → (Slot → Entry → Bool) → List Entry → Spent → Matched → Matched × Spent
take_sole is_left names l spent [] = ([], spent)
take_sole is_left names l spent ((slot, some e) ∷ matched) =
    let (rest, later) = take_sole is_left names l spent matched in ((slot, some e) ∷ rest, later)
take_sole is_left names l spent ((slot, none) ∷ matched) =
    elim (sole (λ e. is_left spent e && names slot e) l) [
      | none ↦
          let (rest, later) = take_sole is_left names l spent matched in
          ((slot, none) ∷ rest, later)
      | some e ↦
          let (rest, later) = take_sole is_left names l (spend e spent) matched in
          ((slot, some e) ∷ rest, later)
    ]

-- The first pass: the first yaml of exactly the slot's name.
abbrev pub names_exactly : Slot → Entry → Bool
names_exactly slot e = str_eq e.1.player_name slot.player_name

unfoldable pub exact : List Entry → List Slot → Matched
exact l [] = []
exact l (slot ∷ roster) = (slot, find_first (names_exactly slot) l) ∷ exact l roster

abbrev pub matched_entries : Matched → List Entry
matched_entries [] = []
matched_entries ((slot, none) ∷ matched) = matched_entries matched
matched_entries ((slot, some e) ∷ matched) = e ∷ matched_entries matched

abbrev pub spent_by : Matched → Spent
spent_by matched = record {
  names = map (λ e. e.1.player_name) (matched_entries matched);
  places = map (λ e. e.0) (matched_entries matched);
}

abbrev pub name_left : Spent → Entry → Bool
name_left spent e = not (has_name spent.names e.1.player_name)

abbrev pub place_left : Spent → Entry → Bool
place_left spent e = not (contains spent.places e.0)

abbrev pub names_cut : Text → Slot → Entry → Bool
unfolding ap_name
names_cut t slot e = str_eq (ap_name t e.1.player_name) slot.player_name

-- A name of a trigger, or the template with the number of the slot.
abbrev pub names_otherwise : Text → List LobbyYaml → Slot → Entry → Bool
unfolding ap_name resolved_name name_number
names_otherwise t yamls slot e =
    any_of (λ alt. str_eq (ap_name t alt) slot.player_name) e.1.alternate_names
    || str_eq
        (resolved_name t e.1.player_name
          (some (record { player = slot.slot_number; number = name_number t yamls e.0 })))
        slot.player_name

pub record Plan : Type 0 where
  pub claims : List (ℕ × ℕ)
  pub unmatched : List String
  pub already_claimed : ℕ
  pub unused_ids : List ℕ

-- The last loop, over the roster with its matches.
abbrev pub claims_of : Matched → List (ℕ × ℕ)
claims_of [] = []
claims_of ((slot, none) ∷ matched) = claims_of matched
claims_of ((slot, some e) ∷ matched) =
    let rest = claims_of matched in
    if is_some slot.owner_id then rest else (slot.slot_number, e.1.discord_id) ∷ rest

abbrev pub unmatched_of : Matched → List String
unmatched_of [] = []
unmatched_of ((slot, some e) ∷ matched) = unmatched_of matched
unmatched_of ((slot, none) ∷ matched) =
    let rest = unmatched_of matched in
    if is_none slot.owner_id then slot.player_name ∷ rest else rest

abbrev pub is_claimed_already : Slot × Option Entry → Bool
is_claimed_already (slot, m) = is_some m && is_some slot.owner_id

-- All the passes.
unfoldable pub matches : Text → List Slot → List LobbyYaml → Matched × Spent
unfolding take_sole exact names_cut names_otherwise
matches t roster yamls =
    let l = entries 0 yamls in
    let first = exact l roster in
    let (second, spent) = take_sole name_left (names_cut t) l (spent_by first) first in
    take_sole place_left (names_otherwise t yamls) l spent second

unfoldable pub plan : Text → List Slot → List LobbyYaml → Plan
unfolding matches
plan t roster yamls =
    let (matched, spent) = matches t roster yamls in
    record {
      claims = claims_of matched;
      unmatched = unmatched_of matched;
      already_claimed = count_if is_claimed_already matched;
      unused_ids = map (λ y. y.id) (keep (λ y. not (has_name spent.names y.player_name)) yamls);
    }
