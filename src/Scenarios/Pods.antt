-- ===== src/Scenarios/Pods.antt =====
-- The size, the command line and the fingerprint of a room's pod.
use puna.Common.{
  ℤ, ℕ, ◌+◌, ◌*◌, ◌≤◌, ◌≡◌, refl, true, false, none, some, String, List, [], ◌∷◌, ◌++◌, map, pos,
  arith,
}
use puna.Model.SlotAuth.{SlotAuth}
use puna.Apply.{RoomSpec, ServiceSpec}
use puna.Spec.Secret
use puna.Spec.Secret.{Slot, RoomSecrets}
use puna.Scenarios.Starts.{request}
use puna.Scenarios.Strokes.{shown, strokes}
use puna.Spec.Sizing.{
  outbound_budget_mib, memory_limit_bytes, memory_request_bytes, shard_queue_bytes, non_queue_bytes,
  mib,
}
use puna.Spec.Sizing.Covers.{memory_limit-covers}
use puna.Spec.Argv.{Arg, serve, save_dir, tls_cert_path, tls_key_path}
use puna.Spec.Argv.Accepted.{is_command, value_of, serve-accepted}
use puna.Spec.Fingerprint.{
  Draft, Text, canonical, env_line, slot_numbers, covered, fixed_lines, push_lines,
}

-- A room of 2000 slots is told 563 MiB.
large_budget : outbound_budget_mib (pos 2000) none ≡ some 563
unfolding outbound_budget_mib
large_budget = refl

memory_limit-covers_example :
    (m limit request : ℕ) × (outbound_budget_mib (pos 189) (some (pos 6190000)) ≡ some m)
    × (memory_limit_bytes (pos 189) (some (pos 6190000)) ≡ some limit)
    × (memory_request_bytes (pos 189) (some (pos 6190000)) ≡ some request)
    × (m * mib + shard_queue_bytes (pos 189) + non_queue_bytes (pos 189) ≤ limit)
    × (request ≤ limit)
    × (189 * 294912 + 6190000 * 8 ≤ m * mib)
    × (67108864 ≤ m * mib)
memory_limit-covers_example =
    memory_limit-covers (pos 189) (some (pos 6190000)) (omega arith) (omega arith)

serve-accepted_example :
    (args : List Arg) × (budget : ℕ) × (limit : ℕ) × (serve shown request.spec ≡ some args)
    × (is_command args ≡ true)
    × (value_of "--port" args ≡ some (strokes 40000))
    × (value_of "--save-dir" args ≡ some save_dir)
    × (value_of "--tls-cert" args ≡ some tls_cert_path)
    × (value_of "--tls-key" args ≡ some tls_key_path)
    × (value_of "--outbound-budget" args ≡ some (strokes budget))
    × (memory_limit_bytes (pos 4) none ≡ some limit)
    × (budget * mib + shard_queue_bytes (pos 4) + non_queue_bytes (pos 4) ≤ limit)
serve-accepted_example = serve-accepted shown request.spec (omega arith) (omega arith) (omega arith)

-- Every password map reads as slot 1, and a text is its own hash.
abbrev text : Text
text = record {
  shown = shown;
  parse_i64 = λ s. some (pos 1);
  text_le = λ s t. true;
  keys_of = λ json. some ("1" ∷ []);
  sha256_hex = λ form. form;
}

abbrev draft : Draft
draft = record {
  room_id = 1;
  image = "pahoa";
  base_port = 40000;
  wants_filtered = true;
  slot_count = pos 4;
  datapackage_bytes = none;
  save_interval_secs = pos 60;
  use_embedded_options = false;
}

abbrev environment : String → List (String × String)
environment passwords = ("PAHOA_ADMIN_TOKEN", "t") ∷ ("PAHOA_SLOT_PASSWORDS", passwords) ∷ []

abbrev built : Draft → String → RoomSpec
built d hash = record {
  room_id = d.room_id;
  spec_hash = hash;
  image = d.image;
  base_port = d.base_port;
  wants_filtered = d.wants_filtered;
  slot_count = d.slot_count;
  datapackage_bytes = d.datapackage_bytes;
  save_interval_secs = d.save_interval_secs;
  use_embedded_options = d.use_embedded_options;
}

abbrev twin : Draft
twin = record draft { room_id = 2 }

abbrev lines : List String
unfolding slot_numbers
lines = fixed_lines text draft SlotAuth.per_slot ++ map (env_line text) (environment "old")

-- A line feed in a value is written as it stands, so two environments can share a text.
one_text :
    canonical text draft SlotAuth.none (("A", "t\nenv=B=s") ∷ [])
    ≡ canonical text draft SlotAuth.none (("A", "t") ∷ ("B", "s") ∷ [])
unfolding canonical covered push_lines
one_text = refl

abbrev service : ServiceSpec
service = record { room_id = 1; base_port = 40000; wants_filtered = true; owner = "uid-1" }

abbrev secrets : RoomSecrets
secrets = record { admin_token = "t"; server_password = some "s" }

abbrev players : List Slot
players = record { slot_number = pos 1; password = some "p" } ∷ []

abbrev to_json : List (ℤ × String) → String
to_json holders = "{}"

abbrev built_environment : List (String × String)
built_environment =
    ("PAHOA_ADMIN_TOKEN", "t")
    ∷ ("PAHOA_SERVER_PASSWORD", "s")
    ∷ ("PAHOA_SLOT_PASSWORDS", "{}")
    ∷ []
