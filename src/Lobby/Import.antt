-- ===== src/Lobby/Import.antt =====
-- `may_import` and `import` of puna-web/src/lobby.rs. What the lobby answers, the names that the triggers of
-- a yaml's content can set, and what others do to the slots between the read and the write are arguments.
use puna.Common.{
  ℕ, ◌-◌, Bool, true, false, Option, none, some, String, List, [], ◌∷◌, map, if◌then◌else◌, keep,
  contains, length,
}
use puna.Roster.Role.{RoomRole, role_le}
use puna.Roster.Members.{MemberRow, role_in}
use puna.Roster.Slots.{Slot, in_room, claim_for_owners}
use puna.Lobby.Names.{Text, LobbyYaml, LobbyRoom, author}
use puna.Lobby.Passes.{Plan, plan}

unfoldable pub may_import : Bool → Option ℕ → Option RoomRole → Bool
may_import true author role = true
may_import false (some a) (some role) = role_le RoomRole.organizer role
may_import false _ _ = false

-- The yamls that named no slot are asked for the names of their triggers.
abbrev pub asked : (ℕ → Option (List String)) → List ℕ → LobbyYaml → LobbyYaml
asked contents unused y =
    if contains unused y.id
    then elim (contents y.id) [ none ↦ y | some names ↦ record y { alternate_names = names } ]
    else y

abbrev pub with_alternatives : (ℕ → Option (List String)) → Plan → List LobbyYaml → List LobbyYaml
with_alternatives contents first yamls = elim first.unused_ids [
  | [] ↦ yamls
  | i ∷ ids ↦ elim first.unmatched [
    | [] ↦ yamls
    | name ∷ names ↦ map (asked contents (i ∷ ids)) yamls
  ]
]

pub record Imported : Type 0 where
  pub claimed : ℕ
  pub taken_first : ℕ
  pub unmatched : List String
  pub already_claimed : ℕ
  pub unused : ℕ

pub data Outcome : Type 0 where
  unreadable author_is_not_an_organizer : Outcome
  imported : Imported → Outcome

-- What is asked of the lobby and the clock, and what others do to the slots meanwhile.
pub record Asked : Type 0 where
  pub fetched : Option LobbyRoom
  pub contents : ℕ → Option (List String)
  pub meanwhile : List Slot → List Slot
  pub now : ℕ

-- The claims of a plan that is made from the table as it was read.
abbrev pub carried_out : Asked → ℕ → Plan → List Slot → Outcome × List Slot
unfolding claim_for_owners
carried_out asked room p slots =
    let (claimed, later) = claim_for_owners asked.now room p.claims (asked.meanwhile slots) in
    (
      Outcome.imported (record {
        claimed = claimed;
        taken_first = length p.claims - claimed;
        unmatched = p.unmatched;
        already_claimed = p.already_claimed;
        unused = length p.unused_ids;
      }),
      later,
    )

-- The plan on the names alone, and again with what the triggers add.
unfoldable pub planned : Text → Asked → List Slot → List LobbyYaml → Plan
unfolding plan
planned t asked roster yamls =
    plan t roster (with_alternatives asked.contents (plan t roster yamls) yamls)

abbrev pub role_of_author : ℕ → List MemberRow → Option ℕ → Option RoomRole
role_of_author room members none = none
role_of_author room members (some a) = role_in room a members

-- The slots of the table are in the order of their numbers.
unfoldable pub import_lobby :
    Text → Asked → ℕ → Bool → List MemberRow → List Slot → Outcome × List Slot
unfolding planned may_import author carried_out
import_lobby t asked room is_admin members slots = elim asked.fetched [
  | none ↦ (Outcome.unreadable, slots)
  | some fetched ↦
      if may_import is_admin (author fetched) (role_of_author room members (author fetched))
      then carried_out asked room (planned t asked (keep (in_room room) slots) fetched.yamls) slots
      else (Outcome.author_is_not_an_organizer, slots)
]
