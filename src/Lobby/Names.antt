-- ===== src/Lobby/Names.antt =====
-- The names of a lobby's yamls: `resolved_name`, `ap_name` and the name counter of `plan`, of
-- puna-web/src/lobby.rs. The standard library's work on text is an argument.
use puna.Common.{
  ℕ, suc, Option, none, some, String, List, [], ◌∷◌, map, if◌then◌else◌, ◌==◌, ltb, str_eq,
  count_if, sort_by_key, ℤ, pos, negsuc,
}

-- The methods of strings that names are rewritten with.
pub record Text : Type 0 where
  pub split_escape : String → List String
  pub replace : String → String → String → String
  pub join : String → List String → String
  pub trim : String → String
  pub take_chars : ℕ → String → String
  pub of_number : ℕ → String
  pub to_lowercase : String → String

pub record LobbyYaml : Type 0 where
  pub player_name : String
  pub discord_id : ℕ
  pub id : ℕ
  pub slot_number : ℕ
  pub alternate_names : List String

pub record LobbyRoom : Type 0 where
  pub author_id : ℤ
  pub yamls : List LobbyYaml

unfoldable pub author : LobbyRoom → Option ℕ
author room = elim room.author_id [ pos n ↦ some n | negsuc n ↦ none ]

pub record NamePosition : Type 0 where
  pub player : ℕ
  pub number : ℕ

-- A yaml with its place in the list.
abbrev pub Entry : Type 0
Entry = ℕ × LobbyYaml

abbrev pub entries : ℕ → List LobbyYaml → List Entry
entries i [] = []
entries i (y ∷ yamls) = (i, y) ∷ entries (suc i) yamls

module _ (t : Text) where
  -- A number that is shown from 2 on.
  abbrev pub from_two : ℕ → String
  from_two n = if ltb 1 n then t.of_number n else ""

  abbrev pub substituted : String → Option NamePosition → String
  substituted submitted none = submitted
  substituted submitted (some p) =
      let pieces =
        map (λ piece. t.replace "%player%" "{player}" (t.replace "%number%" "{number}" piece))
          (t.split_escape submitted) in
      let joined = t.join "%" pieces in
      t.replace "{PLAYER}" (from_two p.player) (
        t.replace "{player}" (t.of_number p.player) (
          t.replace "{NUMBER}" (from_two p.number)
            (t.replace "{number}" (t.of_number p.number) joined)))

  unfoldable pub resolved_name : String → Option NamePosition → String
  resolved_name submitted position =
      t.trim (t.take_chars 16 (t.trim (substituted submitted position)))

  unfoldable pub ap_name : String → String
  unfolding resolved_name
  ap_name submitted = resolved_name submitted none

  -- The name counter, in the order of the slot numbers: what each place in the list counts.
  abbrev pub counted : List String → List Entry → List (ℕ × ℕ)
  counted seen [] = []
  counted seen ((i, y) ∷ rest) =
      let name = t.to_lowercase y.player_name in
      (i, suc (count_if (str_eq name) seen)) ∷ counted (name ∷ seen) rest

  abbrev pub number_at : ℕ → List (ℕ × ℕ) → ℕ
  number_at i [] = 1
  number_at i ((j, n) ∷ numbers) = let rest = number_at i numbers in if j == i then n else rest

  unfoldable pub name_number : List LobbyYaml → ℕ → ℕ
  unfolding sort_by_key
  name_number yamls i =
      number_at i (counted [] (sort_by_key (λ e. (some e.1.slot_number, e.0)) (entries 0 yamls)))
