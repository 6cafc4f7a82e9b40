-- ===== src/Roster/Members/Spent.antt =====
-- How often an invitation with a number of uses is redeemed, and what a redemption grants.
use puna.Common.{
  ℕ, ◌+◌, ◌≤◌, ◌≡◌, Bool, true, false, Option, none, some, String, List, [], ◌∷◌, if◌then◌else◌,
  arith, ◌&&◌, any_of, is_none, inl, inr, Option-cases, str_eq, eq_iff, All,
}
use puna.Roster.Members.{
  InviteRow, Store, Reply, Fault, delete_invite, set_role, remove, create_invite, revoke_invite,
  redeem_invite, find_invite, consume, grant, is_open,
}
use puna.Roster.Members.Calls.{RosterCall, after}

abbrev pub unlimited : String → List InviteRow → Bool
unlimited token = any_of (λ i. str_eq i.token token && is_none i.uses_remaining)

abbrev uses_of : String → InviteRow → ℕ
uses_of token i =
    if str_eq i.token token then elim i.uses_remaining [ none ↦ 0 | some n ↦ n ] else 0

-- The uses that are left of a token.
abbrev pub uses_left : String → List InviteRow → ℕ
uses_left token [] = 0
uses_left token (i ∷ invites) = uses_of token i + uses_left token invites

abbrev pub is_ok : {A : Type 0} → Reply A → Bool
is_ok (Reply.ok a) = true
is_ok (Reply.err e) = false

-- Whether a call is a redemption of the token that succeeds.
abbrev pub redeems : String → RosterCall → Store → Bool
redeems token (RosterCall.redeem_invite fault now t user) s =
    str_eq t token && is_ok (redeem_invite fault now t user s).0
redeems token _ s = false

abbrev pub redemptions : String → List RosterCall → Store → ℕ
redemptions token [] s = 0
redemptions token (call ∷ calls) s =
    (if redeems token call s then 1 else 0) + redemptions token calls (after call s)

-- The call mints no other invitation of this token.
abbrev pub IsOther : String → RosterCall → Type 0
IsOther token (RosterCall.create_invite down t room role expires_at uses) = str_eq t token ≡ false
IsOther token _ = Unit

delete_invite-uses :
    (room : ℕ) (t token : String) (invites : List InviteRow)
    → unlimited token invites ≡ false
    → (uses_left token (delete_invite room t invites) ≤ uses_left token invites)
      × (unlimited token (delete_invite room t invites) ≡ false)
unfolding delete_invite
delete_invite-uses room t token [] h = ground arith
delete_invite-uses room t token (i ∷ invites) h =
    ground (arith, delete_invite-uses room t token invites)

consume-uses :
    (t token : String) (invites : List InviteRow)
    → unlimited token invites ≡ false
    → (uses_left token (consume t invites) ≤ uses_left token invites)
      × (unlimited token (consume t invites) ≡ false)
unfolding consume
consume-uses t token [] h = ground arith
consume-uses t token (i ∷ invites) h = ground (arith, consume-uses t token invites)

consume-spends :
    (now : ℕ) (token : String) (invites : List InviteRow) (i : InviteRow)
    → unlimited token invites ≡ false
    → find_invite token invites ≡ some i
    → is_open now i ≡ true
    → uses_left token (consume token invites) + 1 ≤ uses_left token invites
unfolding consume find_invite
consume-spends now token [] i h e o = ground arith
consume-spends now token (j ∷ invites) i h e o = ground (arith, consume-spends now token invites i)

grant-invites :
    (fault : Option Fault) (user : ℕ) (i : InviteRow) (invites : List InviteRow) (s : Store)
    → (grant fault user i invites s).1.invites ≡ invites
unfolding grant
grant-invites fault user i invites s = ground arith

-- What a call costs the token's uses.
abbrev Costs : String → Bool → List InviteRow → List InviteRow → Type 0
Costs token redeemed before later =
    (uses_left token later + (if redeemed then 1 else 0) ≤ uses_left token before)
    × (unlimited token later ≡ false)

redeem_invite-Costs :
    (fault : Option Fault) (now : ℕ) (t : String) (user : ℕ) (token : String) (s : Store)
    → unlimited token s.invites ≡ false
    → Costs token
        (redeems token (RosterCall.redeem_invite fault now t user) s)
        s.invites
        (redeem_invite fault now t user s).1.invites
unfolding redeem_invite
redeem_invite-Costs (some Fault.at_consume) now t user token s h = ground arith
redeem_invite-Costs fault now t user token s h = elim (Option-cases (find_invite t s.invites)) [
  | inl missing ↦ ground arith
  | inr (i, found) ↦ ground (
    arith,
    eq_iff t token,
    grant-invites fault user i (consume t s.invites) s,
    consume-uses t token s.invites,
    consume-spends now token s.invites i,
  )
]

after-Costs :
    (token : String) (call : RosterCall) (s : Store)
    → unlimited token s.invites ≡ false
    → IsOther token call
    → Costs token (redeems token call s) s.invites (after call s).invites
unfolding set_role remove create_invite revoke_invite
after-Costs token (RosterCall.set_role down room user role) s h other = ground arith
after-Costs token (RosterCall.remove down room user) s h other = ground arith
after-Costs token (RosterCall.create_invite down t room role expires_at uses) s h other =
    ground arith
after-Costs token (RosterCall.revoke_invite down room t) s h other =
    ground (arith, delete_invite-uses room t token s.invites)
after-Costs token (RosterCall.redeem_invite fault now t user) s h other =
    redeem_invite-Costs fault now t user token s h

-- An invitation of a number of uses is redeemed at most that often, whatever else is called and
-- whichever statements fail, as long as no other invitation of its token is minted.
pub redemptions-le-uses :
    (token : String) (calls : List RosterCall) (s : Store)
    → unlimited token s.invites ≡ false
    → All (IsOther token) calls
    → redemptions token calls s ≤ uses_left token s.invites
redemptions-le-uses token [] s h others = omega arith
redemptions-le-uses token (call ∷ calls) s h others =
    let (spent, limited) = after-Costs token call s h others.0 in
    omega (arith, redemptions-le-uses token calls (after call s) limited others.1)
