-- ===== src/Scenarios/Lobbies.antt =====
-- A lobby of three yamls, two of them of one template.
use puna.Common.{
  ℕ, ◌≤◌, ◌≡◌, refl, true, false, Option, none, some, String, List, [], ◌∷◌, All, ◌⊎◌,
  if◌then◌else◌, str_eq, ◌&&◌, ◌==◌, pos,
}
use puna.Roster.Role.{RoomRole}
use puna.Roster.Members
use puna.Roster.Members.{MemberRow}
use puna.Roster.Slots.{Slot, SlotKind}
use puna.Roster.Slots.Held.{IsLinked, owner_at}
use puna.Lobby.Names.{Text, LobbyYaml}
use puna.Lobby.Import.{Asked, import_lobby}
use puna.Lobby.Passes.{plan, matches}
use puna.Lobby.Named.{IsClaim, plan-IsClaim}
use puna.Lobby.Once.{uses, matches-uses}
use puna.Lobby.Admitted.{is_imported, MayImport, import_lobby-admitted, import_lobby-Holds}

-- Enough of the methods for these names.
abbrev text : Text
text = record {
  split_escape = λ s. s ∷ [];
  replace = λ from to s.
      if str_eq s "Troy{number}" && str_eq from "{number}"
      then (if str_eq to "1" then "Troy1" else "Troy2")
      else s;
  join = λ separator pieces. elim pieces [ [] ↦ "" | s ∷ more ↦ s ];
  trim = λ s. s;
  take_chars = λ n s. s;
  of_number = λ n. if n == 1 then "1" else "2";
  to_lowercase = λ s. s;
}

abbrev yaml : String → ℕ → ℕ → ℕ → LobbyYaml
yaml name account id slot = record {
  player_name = name;
  discord_id = account;
  id = id;
  slot_number = slot;
  alternate_names = [];
}

abbrev yamls : List LobbyYaml
yamls = yaml "Ann" 10 100 1 ∷ yaml "Troy{number}" 30 102 3 ∷ yaml "Troy{number}" 20 101 2 ∷ []

abbrev slot : ℕ → String → Option ℕ → Slot
slot n name owner = record {
  room_id = 1;
  slot_number = n;
  player_name = name;
  kind = SlotKind.player;
  password = none;
  password_hidden = false;
  owner_id = owner;
  claim_token = elim owner [ none ↦ some "tok" | some u ↦ none ];
  claimed_at = none;
  locked_at = none;
  locked_by = none;
}

abbrev slots : List Slot
slots = slot 1 "Ann" (some 11) ∷ slot 2 "Troy1" none ∷ slot 3 "Troy2" none ∷ []

-- The counter follows the slot numbers, and Ann's slot stays with its holder.
counted_in_order : plan text slots yamls ≡ record {
  claims = (2, 20) ∷ (3, 30) ∷ [];
  unmatched = [];
  already_claimed = 1;
  unused_ids = [];
}
unfolding plan
counted_in_order = refl

plan-IsClaim_example : All (IsClaim text slots yamls) (plan text slots yamls).claims
plan-IsClaim_example = plan-IsClaim text slots yamls

matches-uses_example : uses 1 (matches text slots yamls).0 ≤ 1
matches-uses_example = matches-uses text slots yamls 1 (refl, (refl, (refl, tt)))

abbrev asked : Asked
asked = record {
  fetched = some (record { author_id = pos 10; yamls = yamls });
  contents = λ id. none;
  meanwhile = λ s. s;
  now = 50;
}

abbrev members : List MemberRow
members = record { room_id = 1; user_id = 10; role = RoomRole.organizer } ∷ []

all_claimed : owner_at 1 3 (import_lobby text asked 1 false members slots).1 ≡ some 30
unfolding import_lobby owner_at Members.role_in
all_claimed = refl

import_lobby-admitted_example :
    ((is_imported (import_lobby text asked 1 false members slots).0 ≡ false)
      × ((import_lobby text asked 1 false members slots).1 ≡ slots)
      × ¬ MayImport false 1 members asked.fetched)
    ⊎ ((is_imported (import_lobby text asked 1 false members slots).0 ≡ true)
        × MayImport false 1 members asked.fetched)
import_lobby-admitted_example = import_lobby-admitted text asked 1 false members slots

import_lobby-Holds_example :
    ((is_imported (import_lobby text asked 1 false members slots).0 ≡ false)
      × ((import_lobby text asked 1 false members slots).1 ≡ slots))
    ⊎ ((is_imported (import_lobby text asked 1 false members slots).0 ≡ true)
        × All IsLinked (import_lobby text asked 1 false members slots).1
        × (owner_at 1 1 (import_lobby text asked 1 false members slots).1 ≡ some 11))
unfolding owner_at
import_lobby-Holds_example =
    import_lobby-Holds text asked 1 false members slots 1 1 11 (refl, (refl, (refl, tt))) refl
