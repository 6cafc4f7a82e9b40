-- ===== src/Spec/Secret/Holders.antt =====
-- What the environment of puna-orchestrator/src/spec/secret.rs says, and when there is none.
use puna.Common.{
  ◌≡◌, Bool, true, Option, none, some, String, List, [], ◌∷◌, if◌then◌else◌, str_eq, is_none,
  is_some, ℤ, All,
}
use puna.Model.SlotAuth.{SlotAuth}
use puna.Spec.Secret.{Slot, RoomSecrets, Answer, holders, complete, with_server}

unfoldable pub lookup_key : String → List (String × String) → Option String
lookup_key key [] = none
lookup_key key ((k, v) ∷ rest) =
    let further = lookup_key key rest in if str_eq key k then some v else further

abbrev pub has_password : Slot → Bool
has_password s = is_some s.password

-- The password that the mode shares, and the map that it writes.
abbrev pub shared : SlotAuth → Option String → Option String
shared SlotAuth.room password = password
shared _ password = none

abbrev pub per_slot_map : (List (ℤ × String) → String) → SlotAuth → List Slot → Option String
per_slot_map to_json SlotAuth.per_slot slots = some (to_json (holders slots))
per_slot_map to_json _ slots = none

-- What a mode asks for: a password of the room in its own mode alone, and in the mode of the slots a
-- slot, and a password for each.
abbrev pub Fits : SlotAuth → Option String → List Slot → Type 0
Fits SlotAuth.none password slots = is_none password ≡ true
Fits SlotAuth.room password slots = is_some password ≡ true
Fits SlotAuth.per_slot password [] = ⊥
Fits SlotAuth.per_slot password (s ∷ slots) =
    (is_none password ≡ true) × All (λ x. has_password x ≡ true) (s ∷ slots)

module _ (to_json : List (ℤ × String) → String) (secrets : RoomSecrets) where
  abbrev Says : SlotAuth → Option String → List Slot → List (String × String) → Type 0
  Says auth password slots environment =
      Fits auth password slots
      × (lookup_key "PAHOA_ADMIN_TOKEN" environment ≡ some secrets.admin_token)
      × (lookup_key "PAHOA_SERVER_PASSWORD" environment ≡ secrets.server_password)
      × (lookup_key "PAHOA_PASSWORD" environment ≡ shared auth password)
      × (lookup_key "PAHOA_SLOT_PASSWORDS" environment ≡ per_slot_map to_json auth slots)

  -- The environment is what the slots' arm gives for the slots that lack a password.
  abbrev Completed : List Slot → List (String × String) → List ℤ → Type 0
  Completed slots environment lacking =
      with_server to_json secrets.server_password
        (complete to_json lacking slots (("PAHOA_ADMIN_TOKEN", secrets.admin_token) ∷ []))
      ≡ Answer.ok environment
