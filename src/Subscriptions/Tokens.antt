-- ===== src/Subscriptions/Tokens.antt =====
-- pkg/server/subscription_manager.go: a subscription token is good for its user, once.
use razpravljalnica.Base.{
  nat_eq, string_eq, ℕ, ◌%◌, All, List, Option, String, false, length, some, true, ◌≡◌, ◌≢◌, ◌≤◌,
  ◌⊎◌, ==-self, [], ap, arith, map, none, refl, suc, ◌∷◌,
}
use razpravljalnica.Int64.{Int64}
use razpravljalnica.Dict.{insert, lookup-insert_self, lookup-erase}
use razpravljalnica.Subscriptions.{
  SubscriptionNodeRequest, SubscriptionManager, letter, generate_subscription_token,
  add_subscription_request, validate_subscription_token,
}

-- A subscription token is refused to every user but its own, without being used up; its own user
-- is let in with it once, and then it is refused to everybody.
pub validate_subscription_token_once :
    (req : SubscriptionNodeRequest) (token : String) (other anyone : Int64)
    (sm : SubscriptionManager)
    → other ≢ req.user_id
    → let given = (add_subscription_request req (some token) sm).0 in
      let used = (validate_subscription_token token req.user_id given).0 in
      (validate_subscription_token token other given ≡ (given, false))
      × ((validate_subscription_token token req.user_id given).1 ≡ true)
      × (validate_subscription_token token anyone used ≡ (used, false))
unfolding add_subscription_request validate_subscription_token
validate_subscription_token_once req token other anyone sm ne = ground (
  arith,
  lookup-insert_self token req sm.available_subscriptions,
  lookup-erase token token (insert token req sm.available_subscriptions),
  ==-self token,
)

-- a letter of either case, or a digit
abbrev pub IsAlphanumeric : ℕ → Type 0
IsAlphanumeric c =
    ((b'a' ≤ c) × (c ≤ b'z')) ⊎ (((b'A' ≤ c) × (c ≤ b'Z')) ⊎ ((b'0' ≤ c) × (c ≤ b'9')))

letter-IsAlphanumeric : (b : ℕ) → IsAlphanumeric (letter (b % 62))
unfolding letter
letter-IsAlphanumeric b = ground arith

letters-IsAlphanumeric : (bytes : List ℕ) → All IsAlphanumeric (map (λ b. letter (b % 62)) bytes)
letters-IsAlphanumeric [] = tt
letters-IsAlphanumeric (b ∷ bytes) = (letter-IsAlphanumeric b, letters-IsAlphanumeric bytes)

length-letters : (bytes : List ℕ) → length (map (λ b. letter (b % 62)) bytes) ≡ length bytes
length-letters [] = refl
length-letters (b ∷ bytes) = ap suc (length-letters bytes)

-- A subscription token that is generated has the length that was asked for, and only letters and
-- digits.
pub generate_subscription_token_lem :
    (n : ℕ) (source : Option (List ℕ)) (token : List ℕ)
    → generate_subscription_token n source ≡ some token
    → (length token ≡ n) × All IsAlphanumeric token
unfolding generate_subscription_token
generate_subscription_token_lem n none token h = cc
generate_subscription_token_lem n (some bytes) token h =
    ground (arith, length-letters bytes, letters-IsAlphanumeric bytes)
