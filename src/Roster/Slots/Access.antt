-- ===== src/Roster/Slots/Access.antt =====
-- What a claim link gives, and to whom.
use puna.Common.{ℕ, ◌≡◌, refl, false, Option, none, some, String, List, [], ◌∷◌, arith, same_number}
use puna.Roster.Slots.{
  Slot, update_where, returned, first_of_rows, has_token, taken, claim, may_access,
}

no_token_left :
    (now user t u : ℕ) (token : String) (slots : List Slot)
    → first_of_rows (
        returned
          (has_token token)
          (taken t u)
          (update_where (has_token token) (taken now user) slots))
      ≡ none
no_token_left now user t u token [] = refl
no_token_left now user t u token (s ∷ slots) =
    ground (arith, no_token_left now user t u token slots)

claim-taken :
    (now : ℕ) (token : String) (user : ℕ) (slots : List Slot) (s : Slot)
    → first_of_rows (returned (has_token token) (taken now user) slots) ≡ some s
    → (s.owner_id ≡ some user) × (s.claim_token ≡ none)
claim-taken now token user [] s e = cc
claim-taken now token user (x ∷ slots) s e = ground (arith, claim-taken now token user slots s)

-- A claim by a link hands out a slot that its user may now access, and that of those who have no role in
-- the room and are no administrators nobody else may; and the link is spent: whoever follows it later
-- gets nothing.
pub claim-may_access :
    (now : ℕ) (token : String) (user : ℕ) (slots : List Slot) (s : Slot) (viewer : Option ℕ)
    (t u : ℕ)
    → (claim now token user slots).0 ≡ some s
    → (may_access s viewer none false ≡ same_number viewer (some user))
      × ((claim t token u (claim now token user slots).1).0 ≡ none)
unfolding claim may_access
claim-may_access now token user slots s viewer t u e =
    (ground (arith, claim-taken now token user slots s e), no_token_left now user t u token slots)
