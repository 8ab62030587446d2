-- ===== src/Subscriptions/Open/Lists.antt =====
-- pkg/server/subscription_manager.go, `OpenSubscriptionChannel` and `ClearSubscription`: the lists of
-- the topics name a subscription just while its channel is open.
use text.Mathlib.TextEquality.{eq_iff}
use razpravljalnica.Base.{
  nat_eq, string_eq, ℕ, List, Option-cases, String, [], arith, false, if◌then◌else◌, inl, inr, some,
  true, ◌+◌, ◌-◌, ◌==◌, ◌∷◌, ◌++◌, ◌≡◌,
}
use razpravljalnica.Int64.{Int64}
use razpravljalnica.Dict.{Dict, lookup, insert, erase, lookup-insert, lookup-erase}
use razpravljalnica.Subscriptions.{
  SubscribeTopicRequest, Channel, Subscription, SubscriptionManager, link,
  open_subscription_channel, cut, unlink, close_channel, clear_subscription,
}
use razpravljalnica.Subscriptions.Open.{IsOpen, occurs, named, listed, counted}

occurs-append :
    (c : ℕ) (sub : Subscription) (subs : List Subscription)
    → occurs c (subs ++ sub ∷ []) ≡ occurs c subs + (if c == sub.channel then 1 else 0)
occurs-append c sub [] = omega arith
occurs-append c sub (x ∷ subs) = omega (arith, occurs-append c sub subs)

occurs-link :
    (sub : Subscription) (ts : List Int64) (by_topic : Dict Int64 (List Subscription)) (t : Int64)
    (c : ℕ)
    → occurs c (listed t (link sub ts by_topic))
      ≡ occurs c (listed t by_topic) + (if c == sub.channel then named t ts else 0)
unfolding link
occurs-link sub [] by_topic t c = ground arith
occurs-link sub (x ∷ ts) by_topic t c = ground (
  arith,
  occurs-link sub ts (insert x (listed x by_topic ++ sub ∷ []) by_topic) t c,
  occurs-append c sub (listed x by_topic),
  lookup-insert x t (listed x by_topic ++ sub ∷ []) by_topic,
)

occurs-cut :
    (c k : ℕ) (subs : List Subscription)
    → occurs k (cut c subs) ≡ occurs k subs - (if k == c then 1 else 0)
unfolding cut
occurs-cut c k [] = ground arith
occurs-cut c k (sub ∷ subs) = ground (arith, occurs-cut c k subs)

occurs-unlink :
    (c k : ℕ) (ts : List Int64) (by_topic : Dict Int64 (List Subscription)) (t : Int64)
    → occurs k (listed t (unlink c ts by_topic))
      ≡ occurs k (listed t by_topic) - (if k == c then named t ts else 0)
unfolding unlink
occurs-unlink c k [] by_topic t = ground arith
occurs-unlink c k (x ∷ ts) by_topic t = elim (Option-cases (lookup x by_topic)) [
  | inl missing ↦ ground (arith, occurs-unlink c k ts by_topic t)
  | inr (subs, found) ↦ ground (
    arith,
    occurs-unlink c k ts (insert x (cut c subs) by_topic) t,
    occurs-cut c k subs,
    lookup-insert x t (cut c subs) by_topic,
  )
]

-- Opening a subscription, also under a token that is in use or for a topic that is named twice,
-- keeps the subscriptions in order (`IsOpen`).
pub open_subscription_channel-IsOpen :
    (req : SubscribeTopicRequest) (sm : SubscriptionManager)
    → IsOpen sm
    → IsOpen (open_subscription_channel req sm).0
unfolding open_subscription_channel
open_subscription_channel-IsOpen req sm v = record {
  live = λ t c h. ground (
    arith,
    occurs-link opened req.topic_id sm.subscriptions_by_topic t c,
    v.live t c,
    lookup-insert sm.next_channel c empty sm.channels,
  );
  active = λ token sub h. (
    ground (
      arith,
      v.active token sub,
      v.fresh sm.next_channel,
      lookup-insert req.subscribe_token token opened sm.active_subscriptions,
      lookup-insert sm.next_channel sub.channel empty sm.channels,
    ),
    λ t. ground (
      arith,
      v.active token sub,
      counted sm token sub t v,
      v.live t sm.next_channel,
      v.fresh sm.next_channel,
      occurs-link opened req.topic_id sm.subscriptions_by_topic t sub.channel,
      lookup-insert req.subscribe_token token opened sm.active_subscriptions,
    ),
  );
  own = λ a b x y ha hb e. ground (
    arith,
    v.own a b x y,
    v.active a x,
    v.active b y,
    v.fresh sm.next_channel,
    lookup-insert req.subscribe_token a opened sm.active_subscriptions,
    lookup-insert req.subscribe_token b opened sm.active_subscriptions,
    eq_iff req.subscribe_token a,
    eq_iff req.subscribe_token b,
  );
  fresh = λ c h. ground (arith, v.fresh c, lookup-insert sm.next_channel c empty sm.channels);
}
  where
    opened : Subscription
    opened = record { user_id = req.user_id; topic_ids = req.topic_id; channel = sm.next_channel }

    empty : Channel
    empty = record { buffer = []; closed = false }

cleared-IsOpen :
    (token : String) (sub : Subscription) (ch : Channel) (sm : SubscriptionManager)
    → IsOpen sm
    → lookup token sm.active_subscriptions ≡ some sub
    → lookup sub.channel sm.channels ≡ some ch
    → IsOpen (record sm {
      active_subscriptions = erase token sm.active_subscriptions;
      subscriptions_by_topic = unlink sub.channel sub.topic_ids sm.subscriptions_by_topic;
      channels = insert sub.channel (record ch { closed = true }) sm.channels;
    })
cleared-IsOpen token sub ch sm v found there =
    let (open_now, counts) = v.active token sub found in
    record {
      live = λ t c h. ground (
        arith,
        occurs-unlink sub.channel c sub.topic_ids sm.subscriptions_by_topic t,
        v.live t c,
        counts t,
        lookup-insert sub.channel c (record ch { closed = true }) sm.channels,
      );
      active = λ token' sub' h. (
        ground (
          arith,
          v.active token' sub',
          v.own token token' sub sub',
          lookup-erase token token' sm.active_subscriptions,
          lookup-insert sub.channel sub'.channel (record ch { closed = true }) sm.channels,
          eq_iff token token',
        ),
        λ t. ground (
          arith,
          v.active token' sub',
          counted sm token' sub' t v,
          v.own token token' sub sub',
          lookup-erase token token' sm.active_subscriptions,
          occurs-unlink sub.channel sub'.channel sub.topic_ids sm.subscriptions_by_topic t,
          eq_iff token token',
        ),
      );
      own = λ a b x y ha hb e. ground (
        arith,
        v.own a b x y,
        lookup-erase token a sm.active_subscriptions,
        lookup-erase token b sm.active_subscriptions,
      );
      fresh = λ c h.
          ground (
            arith,
            v.fresh c,
            lookup-insert sub.channel c (record ch { closed = true }) sm.channels,
          );
    }

-- Where the subscriptions are in order (`IsOpen`), a clear of any token returns without a panic,
-- and they are in order after it: no topic lists a closed channel.
pub clear_subscription-IsOpen :
    (token : String) (sm : SubscriptionManager)
    → IsOpen sm
    → (sm' : SubscriptionManager) × (clear_subscription token sm ≡ some sm') × IsOpen sm'
unfolding clear_subscription close_channel
clear_subscription-IsOpen token sm v = elim (Option-cases (lookup token sm.active_subscriptions)) [
  | inl missing ↦ (sm, ground arith, v)
  | inr (sub, found) ↦ elim (Option-cases (lookup sub.channel sm.channels)) [
    | inl gone ↦ absurd (ground (arith, v.active token sub))
    | inr (ch, there) ↦ (
      cleared sub ch,
      ground (arith, v.active token sub),
      cleared-IsOpen token sub ch sm v found there,
    )
  ]
]
  where
    cleared : Subscription → Channel → SubscriptionManager
    cleared sub ch = record sm {
      active_subscriptions = erase token sm.active_subscriptions;
      subscriptions_by_topic = unlink sub.channel sub.topic_ids sm.subscriptions_by_topic;
      channels = insert sub.channel (record ch { closed = true }) sm.channels;
    }
