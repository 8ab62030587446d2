-- ===== src/Subscriptions/Open/Sends.antt =====
-- pkg/server/subscription_manager.go, `AddEventIfNotNil`: every send finds an open channel.
use razpravljalnica.Base.{
  nat_eq, string_eq, ℕ, Bool-cases, List, Option, Option-cases, [], arith, inl, inr, none, refl,
  some, true, ◌<◌, ◌∷◌, ◌++◌, ◌≡◌, ltb, length, ◌∙◌,
}
use razpravljalnica.Dict.{lookup, insert, lookup-insert}
use razpravljalnica.Event.{Event}
use razpravljalnica.Storage.Types.{Message}
use razpravljalnica.Subscriptions.{
  MessageEvent, channel_capacity, Channels, Subscription, SubscriptionManager, create_message_event,
  try_send, send_all, add_message_event, add_event_if_not_nil,
}
use razpravljalnica.Subscriptions.Open.{IsOpen, SameOpen, occurs, is_open}

try_send_lem :
    (event : MessageEvent) (c : ℕ) (channels : Channels)
    → is_open c channels ≡ true
    → (after : Channels) × (try_send event c channels ≡ some after) × SameOpen channels after
unfolding try_send
try_send_lem event c channels h = elim (Option-cases (lookup c channels)) [
  | inl missing ↦ absurd (ground arith)
  | inr (ch, found) ↦ elim (Bool-cases (ltb (length ch.buffer) channel_capacity)) [
    | inr full ↦ (channels, ground arith, (λ k. refl, λ k e. e))
    | inl room ↦
        let after = insert c (record ch { buffer = ch.buffer ++ event ∷ [] }) channels in
        (
          after,
          ground arith,
          (
            λ k. ground (
              arith,
              lookup-insert c k (record ch { buffer = ch.buffer ++ event ∷ [] }) channels,
            ),
            λ k e. ground (
              arith,
              lookup-insert c k (record ch { buffer = ch.buffer ++ event ∷ [] }) channels,
            ),
          ),
        )
  ]
]

send_all_lem :
    (event : MessageEvent) (subs : List Subscription) (channels : Channels)
    → ((c : ℕ) → 0 < occurs c subs → is_open c channels ≡ true)
    → (after : Channels) × (send_all event subs channels ≡ some after) × SameOpen channels after
unfolding send_all
send_all_lem event [] channels h = (channels, refl, (λ c. refl, λ c e. e))
send_all_lem event (sub ∷ subs) channels h =
    let (one, sent, (open_one, gone_one)) =
      try_send_lem event sub.channel channels (h sub.channel (ground arith)) in
    let (after, rest, (open_rest, gone_rest)) =
      send_all_lem event subs one λ c more. open_one c ∙ h c (omega (arith, more)) in
    (after, ground arith, (λ c. open_rest c ∙ open_one c, λ c e. gone_rest c (gone_one c e)))

-- A subscriber list that `live` speaks of, and every channel that is still open, are as before.
pub SameOpen-IsOpen :
    (sm : SubscriptionManager) (channels : Channels)
    → IsOpen sm
    → SameOpen sm.channels channels
    → IsOpen (record sm { channels = channels })
SameOpen-IsOpen sm channels v (open_same, gone_same) = record {
  live = λ t c h. open_same c ∙ v.live t c h;
  active =
      λ token sub h. let (o, counts) = v.active token sub h in (open_same sub.channel ∙ o, counts);
  own = v.own;
  fresh = λ c h. gone_same c (v.fresh c h);
}

-- Where the subscriptions are in order (`IsOpen`), telling the subscribers of an event returns
-- without a panic, which a send into a closed channel would be, and they are in order after it.
pub add_event_if_not_nil-IsOpen :
    (event : Option Event) (message : Option Message) (sm : SubscriptionManager)
    → IsOpen sm
    → (sm' : SubscriptionManager) × (add_event_if_not_nil event message sm ≡ some sm') × IsOpen sm'
unfolding add_event_if_not_nil add_message_event
add_event_if_not_nil-IsOpen none message sm v = (sm, refl, v)
add_event_if_not_nil-IsOpen (some event) none sm v = (sm, refl, v)
add_event_if_not_nil-IsOpen (some event) (some message) sm v =
    elim (Option-cases (lookup message.topic_id sm.subscriptions_by_topic)) [
      | inl missing ↦ (sm, ground arith, v)
      | inr (subs, found) ↦
          let (channels, sent, same) =
            send_all_lem told subs sm.channels λ c h. v.live message.topic_id c (ground arith) in
          (record sm { channels = channels }, ground arith, SameOpen-IsOpen sm channels v same)
    ]
  where
    told : MessageEvent
    told = create_message_event message event.sequence_number event.event_at event.op
