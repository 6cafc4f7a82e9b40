-- ===== src/Commands/Console/Statements.antt =====
-- The statements on the queue, of rows that their requesters' roles suffice for.
use puna.Common.{
  ℕ, suc, ◌≡◌, refl, subst, Bool, true, false, Option, none, some, List, [], ◌∷◌, ◌++◌, arith, All,
  Option-cases, inl, inr,
}
use puna.Roster.Role.{RoomRole, role_le}
use puna.Commands.Kind.{RoomCommand, CommandState, Why, required_role}
use puna.Commands.Probe.{CommandOutput}
use puna.Commands.Queue.{
  Row, enqueue, enqueue_batch, encoded, batch_rows, update_where, claim, finish, fail_stale, has_id,
  started, ended, is_stale, fail_one, oldest_free,
}

module _ {J : Type 0} (read : J → Option RoomCommand) where
  -- The role that the row was requested in suffices for the command that it is read as.
  abbrev pub authorized : Row J → Bool
  authorized r = elim (read r.command) [
    | none ↦ true
    | some command ↦ role_le (required_role command) r.requested_role
  ]

  abbrev pub AllAuthorized : List (Row J) → Type 0
  AllAuthorized = All (λ r. authorized r ≡ true)

  update_where-AllAuthorized :
      (test : Row J → Bool) (change : Row J → Row J)
      → ((r : Row J) → authorized (change r) ≡ authorized r)
      → (rows : List (Row J)) → AllAuthorized rows
      → AllAuthorized (update_where test change rows)
  update_where-AllAuthorized test change same [] all = tt
  update_where-AllAuthorized test change same (r ∷ rows) all =
      (ground (arith, same r), update_where-AllAuthorized test change same rows all.1)

  pub claim-AllAuthorized :
      (now : ℕ) (locked : ℕ → Bool) (rows : List (Row J))
      → AllAuthorized rows
      → AllAuthorized (claim read now locked rows).1
  unfolding claim
  claim-AllAuthorized now locked rows all = elim (Option-cases (oldest_free locked rows)) [
    | inl nothing ↦ rw (nothing, claim) all
    | inr (r, found) ↦
        rw (found, claim)
          (update_where-AllAuthorized (has_id r.id) (started now) (λ x. refl) rows all)
  ]

  pub finish-AllAuthorized :
      (now id : ℕ) (state : CommandState) (result : Option CommandOutput) (error : Option Why)
      (rows : List (Row J))
      → AllAuthorized rows
      → AllAuthorized (finish now id state result error rows)
  unfolding finish
  finish-AllAuthorized now id state result error rows all =
      update_where-AllAuthorized (has_id id) (ended now state result error) (λ x. refl) rows all

  pub fail_stale-AllAuthorized :
      (now older_than : ℕ) (rows : List (Row J))
      → AllAuthorized rows
      → AllAuthorized (fail_stale now older_than rows).1
  unfolding fail_stale
  fail_stale-AllAuthorized now older_than rows all =
      update_where-AllAuthorized (is_stale now older_than) (fail_one now) (λ x. refl) rows all

  AllAuthorized-append :
      (xs ys : List (Row J)) → AllAuthorized xs → AllAuthorized ys → AllAuthorized (xs ++ ys)
  AllAuthorized-append [] ys h k = k
  AllAuthorized-append (x ∷ xs) ys h k = (h.0, AllAuthorized-append xs ys h.1 k)

-- A command that is written is read as itself.
abbrev pub RoundTrip : {J : Type 0} → (RoomCommand → Option J) → (J → Option RoomCommand) → Type 0
RoundTrip {J} encode read =
    (command : RoomCommand) (body : J) → encode command ≡ some body → read body ≡ some command

-- The role suffices for all of the commands.
abbrev pub AllMay : RoomRole → List RoomCommand → Type 0
AllMay role = All (λ c. role_le (required_role c) role ≡ true)

module _ {J : Type 0} (encode : RoomCommand → Option J) (read : J → Option RoomCommand)
    (law : RoundTrip encode read) where
  pub enqueue-AllAuthorized :
      (down : Bool) (id now room by : ℕ) (role : RoomRole) (command : RoomCommand)
      (rows : List (Row J))
      → role_le (required_role command) role ≡ true
      → AllAuthorized read rows
      → AllAuthorized read (enqueue encode down id now room by role command rows).1
  unfolding enqueue
  enqueue-AllAuthorized true id now room by role command rows may all = all
  enqueue-AllAuthorized false id now room by role command rows may all =
      elim (Option-cases (encode command)) [
        | inl unwritten ↦ rw (unwritten, enqueue) all
        | inr (body, written) ↦
            rw (written, enqueue) (ground (arith, law command body written), all)
      ]

  -- The role suffices for what the body is read as.
  abbrev pub may_body : RoomRole → J → Bool
  may_body role body = elim (read body) [
    | none ↦ true
    | some command ↦ role_le (required_role command) role
  ]

  encoded-may_body :
      (role : RoomRole) (commands : List RoomCommand) (bodies : List J)
      → encoded encode commands ≡ some bodies
      → AllMay role commands
      → All (λ b. may_body role b ≡ true) bodies
  unfolding encoded
  encoded-may_body role [] [] e may = tt
  encoded-may_body role [] (b ∷ bodies) e may = cc
  encoded-may_body role (c ∷ commands) bodies e may = elim (Option-cases (encode c)) [
    | inl unwritten ↦ ground arith
    | inr (body, written) ↦ elim (Option-cases (encoded encode commands)) [
      | inl unwritten_rest ↦ ground arith
      | inr (rest, written_rest) ↦
          subst (All (λ b. may_body role b ≡ true)) {x = body ∷ rest} (ground arith) (
            rest_first body rest (ground (arith, law c body written))
              (encoded-may_body role commands rest written_rest may.1))
    ]
  ]
    where
      rest_first :
          (body : J) (rest : List J)
          → may_body role body ≡ true
          → All (λ b. may_body role b ≡ true) rest
          → All (λ b. may_body role b ≡ true) (body ∷ rest)
      rest_first body rest h k = (h, k)

  batch_rows-AllAuthorized :
      (ids : ℕ → ℕ) (now room by : ℕ) (role : RoomRole) (batch i : ℕ) (bodies : List J)
      → All (λ b. may_body role b ≡ true) bodies
      → AllAuthorized read (batch_rows encode ids now room by role batch i bodies)
  batch_rows-AllAuthorized ids now room by role batch i [] may = tt
  batch_rows-AllAuthorized ids now room by role batch i (b ∷ bodies) may =
      (may.0, batch_rows-AllAuthorized ids now room by role batch (suc i) bodies may.1)

  pub enqueue_batch-AllAuthorized :
      (down : Bool) (batch : ℕ) (ids : ℕ → ℕ) (now room by : ℕ) (role : RoomRole)
      (commands : List RoomCommand) (rows : List (Row J))
      → AllMay role commands
      → AllAuthorized read rows
      → AllAuthorized read (enqueue_batch encode down batch ids now room by role commands rows).1
  unfolding enqueue_batch
  enqueue_batch-AllAuthorized down batch ids now room by role [] rows may all = all
  enqueue_batch-AllAuthorized true batch ids now room by role (c ∷ commands) rows may all = all
  enqueue_batch-AllAuthorized false batch ids now room by role (c ∷ commands) rows may all =
      elim (Option-cases (encoded encode (c ∷ commands))) [
        | inl unwritten ↦ rw (unwritten, enqueue_batch) all
        | inr (bodies, written) ↦
            rw (written, enqueue_batch)
              (AllAuthorized-append read (batch_rows encode ids now room by role batch 0 bodies)
                rows
                (batch_rows-AllAuthorized ids now room by role batch 0 bodies
                  (encoded-may_body role (c ∷ commands) bodies written may))
                all)
      ]
