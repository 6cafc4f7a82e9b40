-- ===== src/Spec/Argv.antt =====
-- A room's command line: puna-orchestrator/src/spec/args.rs. A panic is `none`. A token `--name=value`
-- is kept as its two parts, and a number is written by the standard library, which is an argument.
pub mod Accepted
use puna.Common.{
  ℕ, ◌+◌, Bool, true, false, Option, none, some, String, List, [], ◌∷◌, ◌++◌, if◌then◌else◌, str_eq,
  leb, any_of, not, find_first, ℤ, is_some,
}
use mathlib.Core.Option
use puna.Apply.{RoomSpec}
use puna.Spec.Sizing.{outbound_budget_mib, shards, shard_queue_depth}

pub record Opt : Type 0 where
  pub name : String
  pub takes_value : Bool

abbrev a_flag : String → Opt
a_flag name = record { name = name; takes_value = false }

abbrev a_value : String → Opt
a_value name = record { name = name; takes_value = true }

abbrev pub pahoa_serve_opts : List Opt
pahoa_serve_opts =
    a_flag "--help"
    ∷ a_value "--bind"
    ∷ a_value "--port"
    ∷ a_value "--save-dir"
    ∷ a_value "--save-interval"
    ∷ a_value "--outbound-budget"
    ∷ a_value "--shards"
    ∷ a_value "--shard-queue-depth"
    ∷ a_value "--log-level"
    ∷ a_value "--log-format"
    ∷ a_flag "--journal"
    ∷ a_value "--filtered-port"
    ∷ a_value "--tls-cert"
    ∷ a_value "--tls-key"
    ∷ a_flag "--allow-plaintext"
    ∷ a_flag "--open-tracker"
    ∷ a_value "--password"
    ∷ a_value "--server-password"
    ∷ a_value "--hint-cost"
    ∷ a_value "--location-check-points"
    ∷ a_value "--release-mode"
    ∷ a_value "--collect-mode"
    ∷ a_value "--remaining-mode"
    ∷ a_value "--countdown-mode"
    ∷ a_flag "--no-item-cheat"
    ∷ a_value "--compatibility"
    ∷ a_flag "--use-embedded-options"
    ∷ []

-- The names alone: the reasons are for a reader.
abbrev pub never_argv : List String
never_argv =
    "--password" ∷ "--server-password" ∷ "--allow-plaintext" ∷ "--open-tracker" ∷ "--hint-cost"
    ∷ "--location-check-points" ∷ "--release-mode" ∷ "--collect-mode" ∷ "--remaining-mode"
    ∷ "--countdown-mode" ∷ "--no-item-cheat" ∷ "--compatibility" ∷ []

pub data Arg : Type 0 where
  word : String → Arg
  assigned : String → String → Arg

pub record ArgBuilder : Type 0 where
  pub args : List Arg
  pub used : List String

abbrev pub new : String → ArgBuilder
new subcommand = record { args = Arg.word subcommand ∷ []; used = [] }

abbrev pub same_bool : Bool → Bool → Bool
same_bool true b = b
same_bool false b = not b

-- The checks on the option that was found in the table.
abbrev pub claim_opt : ArgBuilder → String → Bool → Option Opt → Option ArgBuilder
claim_opt b name takes_value none = none
claim_opt b name takes_value (some opt) =
    if not (same_bool opt.takes_value takes_value)
    then none
    else if any_of (str_eq name) b.used
    then none
    else some (record b { used = b.used ++ name ∷ [] })

unfoldable pub claim : String → Bool → ArgBuilder → Option ArgBuilder
claim name takes_value b =
    if any_of (str_eq name) never_argv
    then none
    else claim_opt b name takes_value (find_first (λ o. str_eq o.name name) pahoa_serve_opts)

abbrev pub push : Arg → ArgBuilder → ArgBuilder
push a b = record b { args = b.args ++ a ∷ [] }

unfoldable pub flag : String → ArgBuilder → Option ArgBuilder
unfolding claim
flag name b = Option.map (push (Arg.word name)) (claim name false b)

unfoldable pub value : String → String → ArgBuilder → Option ArgBuilder
unfolding claim
value name v b = Option.map (push (Arg.assigned name v)) (claim name true b)

unfoldable pub finish : String → ArgBuilder → List Arg
finish positional b = b.args ++ Arg.word positional ∷ []

-- One call after another on the builder.
infixl 5 ◌>>=◌
unfoldable pub ◌>>=◌ : {A B : Type 0} → Option A → (A → Option B) → Option B
none >>= f = none
some a >>= f = f a

-- The paths of puna-orchestrator/src/spec/mod.rs.
abbrev pub save_dir : String
save_dir = "/var/lib/pahoa"

abbrev pub seed_path : String
seed_path = "/var/lib/pahoa/seed.archipelago"

abbrev pub tls_cert_path : String
tls_cert_path = "/etc/pahoa/tls/tls.crt"

abbrev pub tls_key_path : String
tls_key_path = "/etc/pahoa/tls/tls.key"

-- The standard library's `Display` of a number.
pub record Shown : Type 0 where
  pub of_nat : ℕ → String
  pub of_int : ℤ → String

module _ (shown : Shown) where
  -- `--filtered-port`, where `checked_add` on `u16` panics past the last port.
  abbrev pub filtered_port : RoomSpec → ArgBuilder → Option ArgBuilder
  unfolding value
  filtered_port spec b =
      if spec.wants_filtered
      then (if leb (spec.base_port + 1) 65535
          then value "--filtered-port" (shown.of_nat (spec.base_port + 1)) b
          else none)
      else some b

  abbrev pub embedded : RoomSpec → ArgBuilder → Option ArgBuilder
  unfolding flag
  embedded spec b = if spec.use_embedded_options then flag "--use-embedded-options" b else some b

  unfoldable pub serve : RoomSpec → Option (List Arg)
  unfolding value flag finish ◌>>=◌
  serve spec = do
    b ← value "--bind" "::" (new "serve")
    b ← value "--port" (shown.of_nat spec.base_port) b
    b ← filtered_port spec b
    budget ← outbound_budget_mib spec.slot_count spec.datapackage_bytes
    b ← value "--outbound-budget" (shown.of_nat budget) b
    b ← value "--shards" (shown.of_nat (shards spec.slot_count)) b
    b ← value "--shard-queue-depth" (shown.of_nat (shard_queue_depth spec.slot_count)) b
    b ← value "--save-dir" save_dir b
    b ← value "--save-interval" (shown.of_int spec.save_interval_secs) b
    b ← value "--tls-cert" tls_cert_path b
    b ← value "--tls-key" tls_key_path b
    b ← value "--log-format" "json" b
    b ← flag "--journal" b
    b ← embedded spec b
    some (finish seed_path b)
