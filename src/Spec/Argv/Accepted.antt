-- ===== src/Spec/Argv/Accepted.antt =====
-- What the room's program takes as a command line, as puna-orchestrator/src/spec/args.rs says of it, and
-- what `serve` writes.
use puna.Common.{
  ℕ, ◌+◌, ◌*◌, ◌≤◌, ◌<◌, ◌≡◌, refl, Bool, true, false, ◌&&◌, Option, none, some, String, List, [],
  ◌∷◌, ◌++◌, if◌then◌else◌, str_eq, leb, any_of, not, arith, Bool-cases, inl, inr,
}
use puna.Apply.{RoomSpec}
use puna.Spec.Sizing.{
  outbound_budget_mib, shards, shard_queue_depth, at_least_zero, or_zero, memory_limit_bytes, mib,
  shard_queue_bytes, non_queue_bytes,
}
use puna.Spec.Sizing.Covers.{memory_limit-covers}
use puna.Spec.Argv.{
  Arg, pahoa_serve_opts, never_argv, same_bool, Shown, serve, save_dir, seed_path, tls_cert_path,
  tls_key_path,
}

-- An option that the program has, with a value or without, that is not withheld and not given yet.
abbrev pub usable : String → Bool → List String → Bool
usable name takes_value seen =
    any_of (λ o. str_eq o.name name && same_bool o.takes_value takes_value) pahoa_serve_opts
    && not (any_of (str_eq name) never_argv)
    && not (any_of (str_eq name) seen)

-- Usable options, no two of one name, and then the seed.
unfoldable pub are_options : List String → List Arg → Bool
are_options seen [] = false
are_options seen (Arg.assigned name v ∷ rest) =
    usable name true seen && are_options (name ∷ seen) rest
are_options seen (Arg.word w ∷ []) = str_eq w seed_path
are_options seen (Arg.word w ∷ (a ∷ rest)) =
    usable w false seen && are_options (w ∷ seen) (a ∷ rest)

unfoldable pub is_command : List Arg → Bool
unfolding are_options
is_command (Arg.word w ∷ rest) = str_eq w "serve" && are_options [] rest
is_command _ = false

-- The value of an option.
unfoldable pub value_of : String → List Arg → Option String
value_of name [] = none
value_of name (Arg.word w ∷ rest) = value_of name rest
value_of name (Arg.assigned n v ∷ rest) =
    let later = value_of name rest in if str_eq n name then some v else later

module _ (shown : Shown) where
  abbrev pub if_filtered : RoomSpec → List Arg
  if_filtered spec =
      if spec.wants_filtered
      then Arg.assigned "--filtered-port" (shown.of_nat (spec.base_port + 1)) ∷ []
      else []

  abbrev pub if_embedded : RoomSpec → List Arg
  if_embedded spec =
      if spec.use_embedded_options then Arg.word "--use-embedded-options" ∷ [] else []

  pub written : RoomSpec → ℕ → List Arg
  written spec budget =
      Arg.word "serve"
      ∷ Arg.assigned "--bind" "::"
      ∷ Arg.assigned "--port" (shown.of_nat spec.base_port)
      ∷ (if_filtered spec
          ++ Arg.assigned "--outbound-budget" (shown.of_nat budget)
            ∷ Arg.assigned "--shards" (shown.of_nat (shards spec.slot_count))
            ∷ Arg.assigned "--shard-queue-depth" (shown.of_nat (shard_queue_depth spec.slot_count))
            ∷ Arg.assigned "--save-dir" save_dir
            ∷ Arg.assigned "--save-interval" (shown.of_int spec.save_interval_secs)
            ∷ Arg.assigned "--tls-cert" tls_cert_path
            ∷ Arg.assigned "--tls-key" tls_key_path
            ∷ Arg.assigned "--log-format" "json"
            ∷ Arg.word "--journal"
            ∷ (if_embedded spec ++ Arg.word seed_path ∷ []))

  pub written-is_command : (spec : RoomSpec) (budget : ℕ) → is_command (written spec budget) ≡ true
  unfolding written is_command
  written-is_command spec budget = elim (Bool-cases spec.wants_filtered) [
    | inl f ↦ elim (Bool-cases spec.use_embedded_options) [ inl e ↦ rw (f, e) | inr e ↦ rw (f, e) ]
    | inr f ↦ elim (Bool-cases spec.use_embedded_options) [ inl e ↦ rw (f, e) | inr e ↦ rw (f, e) ]
  ]

  pub serve-written :
      (spec : RoomSpec) (budget : ℕ)
      → spec.base_port < 65535
      → outbound_budget_mib spec.slot_count spec.datapackage_bytes ≡ some budget
      → serve shown spec ≡ some (written spec budget)
  unfolding serve written
  serve-written spec budget h b =
      let fits : leb (spec.base_port + 1) 65535 ≡ true = ground arith in
      elim (Bool-cases spec.wants_filtered) [
        | inl f ↦ elim (Bool-cases spec.use_embedded_options) [
          | inl e ↦ rw (f, fits, b, e)
          | inr e ↦ rw (f, fits, b, e)
        ]
        | inr f ↦ elim (Bool-cases spec.use_embedded_options) [
          | inl e ↦ rw (f, b, e)
          | inr e ↦ rw (f, b, e)
        ]
      ]

  pub written-value_of :
      (spec : RoomSpec) (budget : ℕ)
      → (value_of "--port" (written spec budget) ≡ some (shown.of_nat spec.base_port))
        × (value_of "--outbound-budget" (written spec budget) ≡ some (shown.of_nat budget))
        × (value_of "--save-dir" (written spec budget) ≡ some save_dir)
        × (value_of "--tls-cert" (written spec budget) ≡ some tls_cert_path)
        × (value_of "--tls-key" (written spec budget) ≡ some tls_key_path)
  unfolding written value_of
  written-value_of spec budget = elim (Bool-cases spec.wants_filtered) [
    | inl f ↦ rw f (refl, refl, refl, refl, refl)
    | inr f ↦ rw f (refl, refl, refl, refl, refl)
  ]

  pub written-filtered_port :
      (spec : RoomSpec) (budget : ℕ)
      → value_of "--filtered-port" (written spec budget)
        ≡ (if spec.wants_filtered then some (shown.of_nat (spec.base_port + 1)) else none)
  unfolding written value_of
  written-filtered_port spec budget = elim (Bool-cases spec.wants_filtered) [
    | inl f ↦ rw f
    | inr f ↦ elim (Bool-cases spec.use_embedded_options) [ inl e ↦ rw (f, e) | inr e ↦ rw (f, e) ]
  ]

  -- A room whose port has a neighbour is given a command line, and one that its program takes: it has
  -- only options that the program knows, each with a value exactly if it takes one, none of them twice
  -- and none that is withheld, and the seed at its end. It serves on the room's port with the
  -- certificate and keeps its save; and it is told an outbound budget that fits in the memory limit of
  -- its container with all else that the room keeps. The room has fewer than 2³¹ slots and its data
  -- package is below 2⁵⁶ bytes.
  pub serve-accepted :
      (spec : RoomSpec)
      → spec.base_port < 65535
      → at_least_zero spec.slot_count < 2147483648
      → at_least_zero (or_zero spec.datapackage_bytes) < 72057594037927936
      → (args : List Arg) × (budget : ℕ) × (limit : ℕ) × (serve shown spec ≡ some args)
        × (is_command args ≡ true)
        × (value_of "--port" args ≡ some (shown.of_nat spec.base_port))
        × (value_of "--save-dir" args ≡ some save_dir)
        × (value_of "--tls-cert" args ≡ some tls_cert_path)
        × (value_of "--tls-key" args ≡ some tls_key_path)
        × (value_of "--outbound-budget" args ≡ some (shown.of_nat budget))
        × (memory_limit_bytes spec.slot_count spec.datapackage_bytes ≡ some limit)
        × (budget * mib + shard_queue_bytes spec.slot_count + non_queue_bytes spec.slot_count
            ≤ limit)
  serve-accepted spec h n d =
      let (budget, limit, request, told, limited, requested, held, below, slots, floor) =
        memory_limit-covers spec.slot_count spec.datapackage_bytes n d in
      let (port, outbound, save, cert, key) = written-value_of spec budget in
      (
        written spec budget,
        budget,
        limit,
        serve-written spec budget h told,
        written-is_command spec budget,
        port,
        save,
        cert,
        key,
        outbound,
        limited,
        held,
      )
