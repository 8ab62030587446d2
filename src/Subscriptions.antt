-- ===== src/Subscriptions.antt =====
-- pkg/server/subscription_manager.go: tokens for subscriptions, the open subscriptions, and the
-- channels of their subscribers. A pointer to a `Subscription` is the number of its channel, since
-- each has a channel of its own; the channels stand on a heap. `none` is a panic (a send into a
-- closed channel, a second close). The random source is an argument: the bytes that it gives.
pub mod Tokens
pub mod Open
use razpravljalnica.Base.{
  nat_eq, string_eq, ℕ, ◌%◌, Bool, List, Option, String, [], false, if◌then◌else◌, length, ltb, map,
  none, not, some, true, ◌++◌, ◌+◌, ◌-◌, ◌==◌, ◌∷◌,
}
use razpravljalnica.Int64.{Int64}
use razpravljalnica.Dict.{Dict, lookup, insert, erase}
use razpravljalnica.Event.{Event, OpType}
use razpravljalnica.Storage.Types.{Message}
use razpravljalnica.Outcome.{Outcome, returns, blocks}

pub record SubscriptionNodeRequest : Type 0 where
  pub user_id : Int64

pub record SubscribeTopicRequest : Type 0 where
  pub topic_id : List Int64
  pub user_id : Int64
  pub from_message_id : Int64
  pub subscribe_token : String

pub record MessageEvent : Type 0 where
  pub sequence_number : Int64
  pub op : OpType
  pub message : Message
  pub event_at : ℕ

pub record Channel : Type 0 where
  pub buffer : List MessageEvent
  pub closed : Bool

pub record Subscription : Type 0 where
  pub user_id : Int64
  pub topic_ids : List Int64
  pub channel : ℕ

pub record SubscriptionManager : Type 0 where
  pub available_subscriptions : Dict String SubscriptionNodeRequest
  pub active_subscriptions : Dict String Subscription
  pub subscriptions_by_topic : Dict Int64 (List Subscription)
  pub channels : Dict ℕ Channel
  pub next_channel : ℕ

unfoldable pub new_subscription_manager : SubscriptionManager
new_subscription_manager = record {
  available_subscriptions = [];
  active_subscriptions = [];
  subscriptions_by_topic = [];
  channels = [];
  next_channel = 0;
}

-- `make(chan *pb.MessageEvent, 100)`
abbrev pub channel_capacity : ℕ
channel_capacity = 100

abbrev pub Channels : Type 0
Channels = Dict ℕ Channel

-- `select { case sub.channel <- event: default: }`: a full channel drops the event.
unfoldable pub try_send : MessageEvent → ℕ → Channels → Option Channels
try_send event c channels = elim (lookup c channels) [
  | none ↦ some channels
  | some ch ↦
      if ch.closed
      then none
      else if ltb (length ch.buffer) channel_capacity
      then some (insert c (record ch { buffer = ch.buffer ++ event ∷ [] }) channels)
      else some channels
]

-- The loop over the subscribers of a topic.
unfoldable pub send_all : MessageEvent → List Subscription → Channels → Option Channels
send_all event [] channels = some channels
send_all event (sub ∷ subs) channels = elim (try_send event sub.channel channels) [
  | none ↦ none
  | some channels' ↦ send_all event subs channels'
]

unfoldable pub add_message_event :
    MessageEvent → Int64 → SubscriptionManager → Option SubscriptionManager
add_message_event event topic_id sm = elim (lookup topic_id sm.subscriptions_by_topic) [
  | none ↦ some sm
  | some subs ↦ elim (send_all event subs sm.channels) [
    | none ↦ none
    | some channels ↦ some (record sm { channels = channels })
  ]
]

unfoldable pub create_message_event : Message → Int64 → ℕ → OpType → MessageEvent
create_message_event message seq_num event_at op = record {
  sequence_number = seq_num;
  op = op;
  message = message;
  event_at = event_at;
}

unfoldable pub add_event_if_not_nil :
    Option Event → Option Message → SubscriptionManager → Option SubscriptionManager
add_event_if_not_nil none message sm = some sm
add_event_if_not_nil (some event) none sm = some sm
add_event_if_not_nil (some event) (some message) sm =
    add_message_event (create_message_event message event.sequence_number event.event_at event.op)
      message.topic_id sm

-- The 62 letters of `generateSubscriptionToken`, by position.
unfoldable pub letter : ℕ → ℕ
letter i = if ltb i 26 then b'a' + i else if ltb i 52 then b'A' + (i - 26) else b'0' + (i - 52)

-- The bytes of the token for the `n` random bytes; `none` if the source fails or is too short.
unfoldable pub generate_subscription_token : ℕ → Option (List ℕ) → Option (List ℕ)
generate_subscription_token n none = none
generate_subscription_token n (some bytes) =
    if length bytes == n then some (map (λ b. letter (b % 62)) bytes) else none

-- The token is an argument, `none` where its generator has failed.
unfoldable pub add_subscription_request :
    SubscriptionNodeRequest
    → Option String
    → SubscriptionManager
    → SubscriptionManager × Option String
add_subscription_request req none sm = (sm, none)
add_subscription_request req (some token) sm = (
  record sm { available_subscriptions = insert token req sm.available_subscriptions },
  some token,
)

unfoldable pub validate_subscription_token :
    String → Int64 → SubscriptionManager → SubscriptionManager × Bool
validate_subscription_token token user_id sm = elim (lookup token sm.available_subscriptions) [
  | none ↦ (sm, false)
  | some req ↦
      if not (req.user_id == user_id)
      then (sm, false)
      else (record sm { available_subscriptions = erase token sm.available_subscriptions }, true)
]

-- The loop that appends the subscription to the list of each of its topics.
unfoldable pub link :
    Subscription → List Int64 → Dict Int64 (List Subscription) → Dict Int64 (List Subscription)
link sub [] by_topic = by_topic
link sub (t ∷ ts) by_topic =
    let listed : List Subscription = elim (lookup t by_topic) [ none ↦ [] | some subs ↦ subs ] in
    link sub ts (insert t (listed ++ sub ∷ []) by_topic)

unfoldable pub open_subscription_channel :
    SubscribeTopicRequest → SubscriptionManager → SubscriptionManager × ℕ
open_subscription_channel req sm = (
  record sm {
    active_subscriptions = insert req.subscribe_token subscription sm.active_subscriptions;
    subscriptions_by_topic = link subscription req.topic_id sm.subscriptions_by_topic;
    channels = insert sm.next_channel (record { buffer = []; closed = false }) sm.channels;
    next_channel = sm.next_channel + 1;
  },
  sm.next_channel,
)
  where
    subscription : Subscription
    subscription = record {
      user_id = req.user_id;
      topic_ids = req.topic_id;
      channel = sm.next_channel;
    }

-- The first entry that is the subscription itself is cut out of the list.
unfoldable pub cut : ℕ → List Subscription → List Subscription
cut c [] = []
cut c (sub ∷ subs) = let rest = cut c subs in if c == sub.channel then subs else sub ∷ rest

-- The loop that cuts the subscription out of the list of each of its topics. A topic whose list
-- does not have it is not written.
unfoldable pub unlink :
    ℕ → List Int64 → Dict Int64 (List Subscription) → Dict Int64 (List Subscription)
unlink c [] by_topic = by_topic
unlink c (t ∷ ts) by_topic = elim (lookup t by_topic) [
  | none ↦ unlink c ts by_topic
  | some subs ↦ unlink c ts (insert t (cut c subs) by_topic)
]

-- `close(ch)`
unfoldable pub close_channel : ℕ → Channels → Option Channels
close_channel c channels = elim (lookup c channels) [
  | none ↦ none
  | some ch ↦ if ch.closed then none else some (insert c (record ch { closed = true }) channels)
]

unfoldable pub clear_subscription : String → SubscriptionManager → Option SubscriptionManager
clear_subscription token sm = elim (lookup token sm.active_subscriptions) [
  | none ↦ some sm
  | some sub ↦ elim (close_channel sub.channel sm.channels) [
    | none ↦ none
    | some channels ↦ some (record sm {
      active_subscriptions = erase token sm.active_subscriptions;
      subscriptions_by_topic = unlink sub.channel sub.topic_ids sm.subscriptions_by_topic;
      channels = channels;
    })
  ]
]

-- One turn of `for event := range eventChan`: the oldest event, or the end if the channel is closed.
unfoldable pub receive_event :
    ℕ → SubscriptionManager → Outcome (SubscriptionManager × Option MessageEvent)
receive_event c sm = elim (lookup c sm.channels) [
  | none ↦ blocks
  | some ch ↦ elim ch.buffer [
    | [] ↦ if ch.closed then returns (sm, none) else blocks
    | event ∷ rest ↦
        returns
          (record sm { channels = insert c (record ch { buffer = rest }) sm.channels }, some event)
  ]
]
