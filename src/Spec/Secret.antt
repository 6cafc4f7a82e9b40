-- ===== src/Spec/Secret.antt =====
-- The environment of a room's pod: puna-orchestrator/src/spec/secret.rs. The writing of a number and of
-- a JSON object is other crates', and an argument; a room is told by its password mode and password.
pub mod Holders
use puna.Common.{
  ℕ, suc, Bool, true, false, Option, none, some, String, List, [], ◌∷◌, ◌++◌, map, if◌then◌else◌,
  str_eq, is_none, is_some, keep, length, ℤ,
}
use Prim.Native.Nat.{Ordering}
use Prim.Native.String
use puna.Model.SlotAuth.{SlotAuth}

pub record Slot : Type 0 where
  pub slot_number : ℤ
  pub password : Option String

pub record RoomSecrets : Type 0 where
  pub admin_token : String
  pub server_password : Option String

pub data SecretError : Type 0 where
  incomplete_slot_passwords : ℕ → List ℤ → SecretError
  no_slots : SecretError
  password_mode_mismatch : String → SecretError

pub data Answer (A : Type 0) : Type 0 where
  ok : A → Answer A
  err : SecretError → Answer A

-- `BTreeMap::insert`, by the order of the keys.
unfoldable pub insert : String → String → List (String × String) → List (String × String)
insert key value [] = (key, value) ∷ []
insert key value ((k, v) ∷ rest) =
    let further = insert key value rest in
    elim (String.compare key k) [
      | Ordering.lt ↦ (key, value) ∷ (k, v) ∷ rest
      | Ordering.eq ↦ (key, value) ∷ rest
      | Ordering.gt ↦ (k, v) ∷ further
    ]

unfoldable pub missing : List Slot → List ℤ
missing [] = []
missing (s ∷ slots) =
    let rest = missing slots in elim s.password [ none ↦ s.slot_number ∷ rest | some p ↦ rest ]

-- The pairs that `filter_map` collects; the map of them is the JSON writer's.
unfoldable pub holders : List Slot → List (ℤ × String)
holders [] = []
holders (s ∷ slots) =
    let rest = holders slots in elim s.password [ none ↦ rest | some p ↦ (s.slot_number, p) ∷ rest ]

module _ (to_json : List (ℤ × String) → String) where
  -- The arm of `per_slot` once no slot lacks its password.
  abbrev pub complete :
      List ℤ → List Slot → List (String × String) → Answer (List (String × String))
  unfolding insert holders
  complete [] slots data_so_far =
      Answer.ok (insert "PAHOA_SLOT_PASSWORDS" (to_json (holders slots)) data_so_far)
  complete (n ∷ more) slots data_so_far =
      Answer.err (SecretError.incomplete_slot_passwords (length (n ∷ more)) (n ∷ more))

  -- `match room.slot_auth`.
  unfoldable pub by_mode :
      SlotAuth
      → Option String
      → List Slot
      → List (String × String)
      → Answer (List (String × String))
  unfolding insert missing holders
  by_mode SlotAuth.none none slots so_far = Answer.ok so_far
  by_mode SlotAuth.none (some p) slots so_far =
      Answer.err (SecretError.password_mode_mismatch "none")
  by_mode SlotAuth.room none slots so_far = Answer.err (SecretError.password_mode_mismatch "room")
  by_mode SlotAuth.room (some p) slots so_far = Answer.ok (insert "PAHOA_PASSWORD" p so_far)
  by_mode SlotAuth.per_slot (some p) slots so_far =
      Answer.err (SecretError.password_mode_mismatch "per_slot")
  by_mode SlotAuth.per_slot none [] so_far = Answer.err SecretError.no_slots
  by_mode SlotAuth.per_slot none (s ∷ slots) so_far =
      complete (missing (s ∷ slots)) (s ∷ slots) so_far

  abbrev pub with_server :
      Option String → Answer (List (String × String)) → Answer (List (String × String))
  unfolding insert
  with_server password (Answer.err e) = Answer.err e
  with_server none (Answer.ok so_far) = Answer.ok so_far
  with_server (some p) (Answer.ok so_far) = Answer.ok (insert "PAHOA_SERVER_PASSWORD" p so_far)

  unfoldable pub build :
      SlotAuth → Option String → RoomSecrets → List Slot → Answer (List (String × String))
  unfolding by_mode insert
  build slot_auth password secrets slots =
      with_server secrets.server_password
        (by_mode slot_auth password slots (insert "PAHOA_ADMIN_TOKEN" secrets.admin_token []))
