-- ===== src/Spec/Fingerprint.antt =====
-- The fingerprint of a room's pod: `Draft` of puna-orchestrator/src/spec/room.rs. The canonical form is the
-- text that is hashed; the hash, the numbers' writing and the reading of a JSON object are arguments.
pub mod Lines
pub mod Written
pub mod Parts
pub mod Drift
use puna.Common.{
  ℕ, Bool, true, false, Option, none, some, String, List, [], ◌∷◌, ◌++◌, map, if◌then◌else◌, str_eq,
  ltb, ◌&&◌, ◌||◌, not, ℤ, pos, is_some, gtb,
}
use Prim.Native.String
use Prim.Native.String.{◌++◌ as append}
use mathlib.Core.Option
use puna.Model.SlotAuth.{SlotAuth, as_sql}
use puna.Apply.{RoomSpec}
use puna.Spec.Argv.{Shown}
use puna.Spec.Sizing.{outbound_budget_mib, shards, shard_queue_depth, ◌>>=◌, i64_max}

pub record Draft : Type 0 where
  pub room_id : ℕ
  pub image : String
  pub base_port : ℕ
  pub wants_filtered : Bool
  pub slot_count : ℤ
  pub datapackage_bytes : Option ℤ
  pub save_interval_secs : ℤ
  pub use_embedded_options : Bool

-- `{}` of a Boolean.
abbrev pub show_bool : Bool → String
show_bool true = "true"
show_bool false = "false"

-- What the standard library and `serde_json` do: `Display`, `parse::<i64>`, the order of strings, the
-- keys of a JSON object, and the hash of a text.
pub record Text : Type 0 where
  pub shown : Shown
  pub parse_i64 : String → Option ℤ
  pub text_le : String → String → Bool
  pub keys_of : String → Option (List String)
  pub sha256_hex : String → String

-- The lines of a text, each ended by a line feed.
unfoldable pub push_lines : List String → String
push_lines [] = ""
push_lines (line ∷ lines) = append line (String.◌∷◌ "\n" (push_lines lines))

-- `join(",")`.
unfoldable pub join_commas : List String → String
join_commas [] = ""
join_commas (k ∷ []) = k
join_commas (k ∷ j ∷ ks) = append k (append "," (join_commas (j ∷ ks)))

module _ (text : Text) where
  abbrev number_of : String → ℤ
  number_of k = elim (text.parse_i64 k) [ none ↦ pos i64_max | some n ↦ n ]

  -- The order of the keys `(number, text)`.
  abbrev key_before : String → String → Bool
  key_before a b =
      if gtb (number_of a) (number_of b)
      then false
      else if gtb (number_of b) (number_of a)
      then true
      else text.text_le a b

  abbrev insert_key : String → List String → List String
  insert_key k [] = k ∷ []
  insert_key k (x ∷ xs) =
      let rest = insert_key k xs in if key_before k x then k ∷ x ∷ xs else x ∷ rest

  abbrev sort_keys : List String → List String
  sort_keys [] = []
  sort_keys (k ∷ ks) = insert_key k (sort_keys ks)

  unfoldable pub slot_numbers : String → List String
  slot_numbers json = elim (text.keys_of json) [ none ↦ [] | some keys ↦ sort_keys keys ]

  -- What is written of a variable's value: of the map of the slots' passwords its slots alone.
  unfoldable pub covered : String → String → String
  unfolding slot_numbers join_commas
  covered key value =
      if str_eq key "PAHOA_SLOT_PASSWORDS"
      then append "slots:" (join_commas (slot_numbers value))
      else value

  unfoldable pub env_line : String × String → String
  unfolding covered
  env_line (key, value) = append "env=" (append key (String.◌∷◌ "=" (covered key value)))

  -- The budget's line, which is there only if the size of the data package is known.
  abbrev pub budget_line : ℤ → Option ℤ → Option (List String)
  budget_line slot_count none = some []
  budget_line slot_count (some bytes) = do
    budget ← outbound_budget_mib slot_count (some bytes)
    some (append "outbound_budget_mib=" (text.shown.of_nat budget) ∷ [])

  abbrev pub fixed_lines : Draft → SlotAuth → List String
  fixed_lines d auth =
      "puna/room-spec/1"
      ∷ append "image=" d.image
      ∷ append "base_port=" (text.shown.of_nat d.base_port)
      ∷ append "filtered=" (show_bool d.wants_filtered)
      ∷ append "slot_count=" (text.shown.of_int d.slot_count)
      ∷ append "shards=" (text.shown.of_nat (shards d.slot_count))
      ∷ append "shard_queue_depth=" (text.shown.of_nat (shard_queue_depth d.slot_count))
      ∷ append "save_interval=" (text.shown.of_int d.save_interval_secs)
      ∷ append "use_embedded_options=" (show_bool d.use_embedded_options)
      ∷ append "slot_auth=" (as_sql auth)
      ∷ []

  -- The environment is a map, listed by its keys.
  unfoldable pub canonical : Draft → SlotAuth → List (String × String) → Option String
  unfolding env_line push_lines
  canonical d auth environment = do
    budget ← budget_line d.slot_count d.datapackage_bytes
    some (push_lines (fixed_lines d auth ++ (budget ++ map env_line environment)))

  unfoldable pub build : Draft → SlotAuth → List (String × String) → Option RoomSpec
  build d auth environment = do
    form ← canonical d auth environment
    some (record {
      room_id = d.room_id;
      spec_hash = text.sha256_hex form;
      image = d.image;
      base_port = d.base_port;
      wants_filtered = d.wants_filtered;
      slot_count = d.slot_count;
      datapackage_bytes = d.datapackage_bytes;
      save_interval_secs = d.save_interval_secs;
      use_embedded_options = d.use_embedded_options;
    })
