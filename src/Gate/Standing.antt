-- ===== src/Gate/Standing.antt =====
-- Whom `standing` of puna-web/src/gate.rs admits.
use puna.Common.{
  ℕ, ◌≡◌, ◌↔◌, inl, inr, subst, ap, ◌∙◌, refl, Bool, true, false, Option, none, some, String,
  eq_iff, arith, Option-cases, Bool-cases,
}
use puna.Gate.{
  RoomSource, settings_key, Grant, Db, status_of, mode, evaluate, standing, Answer, GateMode,
  UserStatus, may_create, by_mode, parse_status, Decision, answer_of,
}

-- An account that nothing is held against: it has no row yet, or its row says that it is active.
pub data InGoodStanding (db : Db) (user : ℕ) : Type 0 where
  stranger : db.users user ≡ some none → InGoodStanding db user
  active :
      (why : Option String) → db.users user ≡ some (some ("active", why)) → InGoodStanding db user

-- What admits an account, an administrator's or another: its being one, the source's gate that stands
-- open, or the gate's list with the account on it.
pub data Admits (db : Db) (source : RoomSource) (user : ℕ) : Bool → Grant → Type 0 where
  as_admin : Admits db source user true Grant.admin
  as_anyone :
      db.settings (settings_key source) ≡ some (some "open")
      → Admits db source user false Grant.opened
  as_listed :
      db.settings (settings_key source) ≡ some (some "allowlist")
      → db.allowlist user ≡ some true
      → Admits db source user false Grant.allowlisted

module _ (db : Db) (source : RoomSource) (user : ℕ) where
  mode-opened :
      (key : String) → mode db key ≡ some GateMode.opened → db.settings key ≡ some (some "open")
  unfolding mode
  mode-opened key h = elim (Option-cases (db.settings key)) [
    | inl e ↦ absurd (ground arith)
    | inr (row, e) ↦ elim (Option-cases row) [
      | inl f ↦ absurd (ground arith)
      | inr (raw, f) ↦
          ground (arith, eq_iff raw "disabled", eq_iff raw "allowlist", eq_iff raw "open")
    ]
  ]

  mode-allowlist :
      (key : String)
      → mode db key ≡ some GateMode.allowlist
      → db.settings key ≡ some (some "allowlist")
  unfolding mode
  mode-allowlist key h = elim (Option-cases (db.settings key)) [
    | inl e ↦ absurd (ground arith)
    | inr (row, e) ↦ elim (Option-cases row) [
      | inl f ↦ absurd (ground arith)
      | inr (raw, f) ↦
          ground (arith, eq_iff raw "disabled", eq_iff raw "allowlist", eq_iff raw "open")
    ]
  ]

  parse_status-active : (raw : String) → parse_status raw ≡ some UserStatus.active → raw ≡ "active"
  unfolding parse_status
  parse_status-active raw h =
      ground (arith, eq_iff raw "active", eq_iff raw "restricted", eq_iff raw "banned")

  by_mode-Admits :
      (m : GateMode) (g : Grant)
      → mode db (settings_key source) ≡ some m
      → by_mode db user m ≡ some (Decision.allowed g)
      → Admits db source user false g
  unfolding by_mode
  by_mode-Admits GateMode.disabled g e h = absurd (ground arith)
  by_mode-Admits GateMode.opened g e h =
      subst (Admits db source user false) (let k = h in ground arith)
        (as_anyone (mode-opened (settings_key source) e))
  by_mode-Admits GateMode.allowlist g e h = elim (Option-cases (db.allowlist user)) [
    | inl none_at ↦ absurd (ground arith)
    | inr (false, at) ↦ absurd (ground arith)
    | inr (true, at) ↦
        subst (Admits db source user false) (let k = h in ground arith)
          (as_listed (mode-allowlist (settings_key source) e) at)
  ]

  evaluate-Admits :
      (is_admin : Bool) (g : Grant)
      → evaluate db source user is_admin ≡ some (Decision.allowed g)
      → Admits db source user is_admin g
  unfolding evaluate
  evaluate-Admits true g h = subst (Admits db source user true) (let k = h in ground arith) as_admin
  evaluate-Admits false g h = elim (Option-cases (mode db (settings_key source))) [
    | inl e ↦ absurd (ground arith)
    | inr (m, e) ↦ by_mode-Admits m g e (ground arith)
  ]

  answer_of-granted :
      (o : Option Decision) (g : Grant)
      → answer_of o ≡ Answer.granted g
      → o ≡ some (Decision.allowed g)
  answer_of-granted o g h = ground arith

  status_of-active :
      (status : UserStatus) (why : Option String)
      → status_of db user ≡ some (some (status, why))
      → may_create status ≡ true
      → db.users user ≡ some (some ("active", why))
  unfolding status_of may_create
  status_of-active status why e h = elim (Option-cases (db.users user)) [
    | inl f ↦ absurd (ground arith)
    | inr (none, f) ↦ absurd (ground arith)
    | inr (some (raw, text), f) ↦
        ground (arith, eq_iff raw "active", eq_iff raw "restricted", eq_iff raw "banned")
  ]

  status_of-stranger : status_of db user ≡ some none → db.users user ≡ some none
  unfolding status_of
  status_of-stranger h = ground arith

  standing-good :
      (is_admin : Bool) (g : Grant)
      → standing db source user is_admin ≡ Answer.granted g
      → InGoodStanding db user × (evaluate db source user is_admin ≡ some (Decision.allowed g))
  unfolding standing
  standing-good is_admin g h = elim (Option-cases (status_of db user)) [
    | inl e ↦ absurd (ground arith)
    | inr (none, e) ↦ (
      stranger (status_of-stranger e),
      answer_of-granted (evaluate db source user is_admin) g (ground arith),
    )
    | inr (some (status, why), e) ↦ elim (Bool-cases (may_create status)) [
      | inl f ↦ (
        active why (status_of-active status why e f),
        answer_of-granted (evaluate db source user is_admin) g (ground arith),
      )
      | inr f ↦ absurd (ground arith)
    ]
  ]

  stranger-status_of : db.users user ≡ some none → status_of db user ≡ some none
  unfolding status_of
  stranger-status_of e = ground arith

  active-status_of :
      (why : Option String)
      → db.users user ≡ some (some ("active", why))
      → status_of db user ≡ some (some (UserStatus.active, why))
  unfolding status_of
  active-status_of why e = ground arith

  good-standing :
      (is_admin : Bool)
      → InGoodStanding db user
      → standing db source user is_admin ≡ answer_of (evaluate db source user is_admin)
  unfolding standing may_create
  good-standing is_admin (stranger e) = rw (standing, stranger-status_of e)
  good-standing is_admin (active why e) = rw (standing, active-status_of why e)

  Admits-evaluate :
      (is_admin : Bool) (g : Grant)
      → Admits db source user is_admin g
      → evaluate db source user is_admin ≡ some (Decision.allowed g)
  unfolding evaluate mode by_mode
  Admits-evaluate _ _ as_admin = refl
  Admits-evaluate _ _ (as_anyone e) = rw e
  Admits-evaluate _ _ (as_listed e f) = rw (e, f)

  -- Somebody is admitted, with a grant, exactly if nothing is held against the account and what the
  -- grant names admits it: an administrator by being one, whatever the gate's row says, and anybody
  -- else by the gate that stands open, or by its list with the account on it. So a restricted
  -- administrator is refused; an account whose row cannot be read, or has a status that is not known,
  -- is not admitted; and a gate that cannot be read, has no row or has a mode that is not known admits
  -- nobody but administrators.
  pub standing_iff :
      (is_admin : Bool) (g : Grant)
      → (standing db source user is_admin ≡ Answer.granted g)
        ↔ (InGoodStanding db user × Admits db source user is_admin g)
  standing_iff is_admin g = (
    λ h.
        let (good, admitted) = standing-good is_admin g h in
        (good, evaluate-Admits is_admin g admitted),
    λ (good, admits).
        good-standing is_admin good ∙ ap answer_of (Admits-evaluate is_admin g admits),
  )
