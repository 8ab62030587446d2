-- ===== src/Subscriptions/Open.antt =====
-- pkg/server/subscription_manager.go: no event is sent into a closed channel, and no channel is
-- closed twice. A subscription stands in the list of each of its topics as often as it names it,
-- until it is cleared.
pub mod Sends
pub mod Lists
use razpravljalnica.Base.{
  nat_eq, string_eq, ℕ, Bool, List, String, [], arith, false, if◌then◌else◌, none, not, refl, some,
  true, ◌+◌, ◌<◌, ◌==◌, ◌∷◌, ◌≡◌, ◌≤◌,
}
use razpravljalnica.Int64.{Int64}
use razpravljalnica.Dict.{Dict, lookup}
use razpravljalnica.Subscriptions.{
  Channels, Subscription, SubscriptionManager, new_subscription_manager,
}

-- How often a list has the subscription of a channel.
abbrev pub occurs : ℕ → List Subscription → ℕ
occurs c [] = 0
occurs c (sub ∷ subs) = (if c == sub.channel then 1 else 0) + occurs c subs

-- How often a subscription names a topic.
abbrev pub named : Int64 → List Int64 → ℕ
named t [] = 0
named t (x ∷ xs) = (if t == x then 1 else 0) + named t xs

abbrev pub is_open : ℕ → Channels → Bool
is_open c channels = elim (lookup c channels) [ none ↦ false | some ch ↦ not ch.closed ]

abbrev pub listed : Int64 → Dict Int64 (List Subscription) → List Subscription
listed t by_topic = elim (lookup t by_topic) [ none ↦ [] | some subs ↦ subs ]

pub record IsOpen (sm : SubscriptionManager) : Type 0 where
  pub live :
      (t : Int64) (c : ℕ)
      → 0 < occurs c (listed t sm.subscriptions_by_topic)
      → is_open c sm.channels ≡ true
  pub active :
      (token : String) (sub : Subscription)
      → lookup token sm.active_subscriptions ≡ some sub
      → (is_open sub.channel sm.channels ≡ true)
        × ((t : Int64)
            → occurs sub.channel (listed t sm.subscriptions_by_topic) ≡ named t sub.topic_ids)
  pub own :
      (a b : String) (x y : Subscription)
      → lookup a sm.active_subscriptions ≡ some x
      → lookup b sm.active_subscriptions ≡ some y
      → x.channel ≡ y.channel
      → a ≡ b
  pub fresh : (c : ℕ) → sm.next_channel ≤ c → lookup c sm.channels ≡ none

pub new_subscription_manager-IsOpen : IsOpen new_subscription_manager
unfolding new_subscription_manager lookup
new_subscription_manager-IsOpen = record {
  live = λ t c h. absurd (omega arith);
  active = λ token sub h. cc;
  own = λ a b x y h. cc;
  fresh = λ c h. refl;
}

pub counted :
    (sm : SubscriptionManager) (token : String) (sub : Subscription) (t : Int64)
    → IsOpen sm
    → lookup token sm.active_subscriptions ≡ some sub
    → occurs sub.channel (listed t sm.subscriptions_by_topic) ≡ named t sub.topic_ids
counted sm token sub t v h = (v.active token sub h).1 t

-- The same channels are there, and the same are open.
abbrev pub SameOpen : Channels → Channels → Type 0
SameOpen a b =
    ((c : ℕ) → is_open c b ≡ is_open c a) × ((c : ℕ) → lookup c a ≡ none → lookup c b ≡ none)
