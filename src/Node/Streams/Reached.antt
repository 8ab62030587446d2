-- ===== src/Node/Streams/Reached.antt =====
-- pkg/server: the handlers of subscriptions keep them in order, and so does every step of a node.
use razpravljalnica.Base.{
  [], ◌∷◌, nat_eq, string_eq, ℕ, Bool-cases, List, Option, Option-cases, String, arith, inl, inr,
  none, refl, some, subst, ◌≡◌,
}
use razpravljalnica.Int64.{Int64}
use razpravljalnica.Dict.{Dict, lookup, insert, lookup-insert}
use razpravljalnica.Outcome.{returns, >>=-eq-returns}
use razpravljalnica.Subscriptions.{
  SubscriptionManager, SubscriptionNodeRequest, SubscribeTopicRequest, MessageEvent, Channel,
  add_subscription_request as add_request, validate_subscription_token, open_subscription_channel,
  receive_event,
}
use razpravljalnica.Subscriptions.Open.{IsOpen, new_subscription_manager-IsOpen}
use razpravljalnica.Subscriptions.Open.Sends.{SameOpen-IsOpen}
use razpravljalnica.Subscriptions.Open.Lists.{
  open_subscription_channel-IsOpen, clear_subscription-IsOpen,
}
use razpravljalnica.Storage.Types.{Storage, Message, Reply}
use razpravljalnica.Storage.Users.{user_exists}
use razpravljalnica.Storage.Reads.{get_messages_from_topics, collect_topics}
use razpravljalnica.Node.State.{Node, new_server}
use razpravljalnica.Node.Replicate.{buffer_event}
use razpravljalnica.Node.Writes.{Answer}
use razpravljalnica.Node.Reads.{
  add_subscription_request, subscribe_topic, stream_event, end_subscription,
}
use razpravljalnica.Node.Neighbors.{set_predecessor}
use razpravljalnica.Node.Steps.{
  Step, writes, answers, receives_event, receives_ack, replicates, acknowledges, gets_predecessor,
  gets_successor, gets_subscription, subscribes, streams, ends_subscription, Reach, start, next,
}
use razpravljalnica.Node.Streams.{IsStreaming, Same-IsStreaming, tokens-IsOpen}
use razpravljalnica.Node.Streams.Steps.{
  begin-Same, finish_replication-Same, buffer_event-Same, buffer_ack-Same, replicate_next-Same,
  set_successor-Same, set_predecessor-Same, process_ack-IsStreaming,
}

add_subscription_request-IsStreaming :
    (req : SubscriptionNodeRequest) (token : Option String) (n : Node)
    → IsStreaming n
    → IsStreaming (add_subscription_request req token n).0
unfolding add_subscription_request add_request
add_subscription_request-IsStreaming req none n v =
    elim (Bool-cases (user_exists req.user_id n.storage)) [
      | inl there ↦ rw (add_subscription_request, there) v
      | inr missing ↦ rw (add_subscription_request, missing) v
    ]
add_subscription_request-IsStreaming req (some token) n v =
    elim (Bool-cases (user_exists req.user_id n.storage)) [
      | inl there ↦
          rw (add_subscription_request, there)
            (tokens-IsOpen n.subscription_manager
              (add_request req (some token) n.subscription_manager).0 refl refl refl refl v)
      | inr missing ↦ rw (add_subscription_request, missing) v
    ]

validate_subscription_token-IsOpen :
    (token : String) (user_id : Int64) (sm : SubscriptionManager)
    → IsOpen sm
    → IsOpen (validate_subscription_token token user_id sm).0
unfolding validate_subscription_token
validate_subscription_token-IsOpen token user_id sm v =
    tokens-IsOpen sm (validate_subscription_token token user_id sm).0 (ground arith) (ground arith)
      (ground arith) (ground arith) v

end_subscription-IsStreaming :
    (token : String) (n n' : Node)
    → end_subscription token n ≡ returns n'
    → IsStreaming n
    → IsStreaming n'
unfolding end_subscription
end_subscription-IsStreaming token n n' h v =
    let (sm, cleared, w) = clear_subscription-IsOpen token n.subscription_manager v in
    let same : sm ≡ n'.subscription_manager = ground arith in subst IsOpen same w

receive_event-IsOpen :
    (c : ℕ) (sm sm' : SubscriptionManager) (event : Option MessageEvent)
    → receive_event c sm ≡ returns (sm', event)
    → IsOpen sm
    → IsOpen sm'
unfolding receive_event
receive_event-IsOpen c sm sm' event h v = elim (Option-cases (lookup c sm.channels)) [
  | inl missing ↦ absurd (ground arith)
  | inr (ch, found) ↦ by_buffer ch found ch.buffer refl
]
  where
    by_buffer :
        (ch : Channel)
        → lookup c sm.channels ≡ some ch
        → (buffer : List MessageEvent) → ch.buffer ≡ buffer
        → IsOpen sm'
    by_buffer ch found [] e = let same : sm ≡ sm' = ground arith in subst IsOpen same v
    by_buffer ch found (first ∷ rest) e =
        let less : Channel = record ch { buffer = rest } in
        let after : Dict ℕ Channel = insert c less sm.channels in
        let same : record sm { channels = after } ≡ sm' = ground arith in
        subst IsOpen same (
          SameOpen-IsOpen sm after v (
            λ k. ground (arith, lookup-insert c k less sm.channels),
            λ k gone. ground (arith, lookup-insert c k less sm.channels),
          ))

stream_event-IsStreaming :
    (c : ℕ) (n n' : Node) (event : Option MessageEvent)
    → stream_event c n ≡ returns (n', event)
    → IsStreaming n
    → IsStreaming n'
unfolding stream_event
stream_event-IsStreaming c n n' event h v =
    let ((sm, e), received, after) = >>=-eq-returns (receive_event c n.subscription_manager) _ h in
    let same : sm ≡ n'.subscription_manager = ground arith in
    subst IsOpen same (receive_event-IsOpen c n.subscription_manager sm e received v)

-- The subscriptions after the read of the past messages, in which the channel is opened.
read :
    SubscribeTopicRequest
    → SubscriptionManager
    → Storage
    → SubscriptionManager × Reply (List Message)
read req sm s =
    get_messages_from_topics req.topic_id req.from_message_id
      (λ sm. (open_subscription_channel req sm).0) sm s

read-IsOpen :
    (req : SubscribeTopicRequest) (sm : SubscriptionManager) (s : Storage)
    → IsOpen sm
    → IsOpen (read req sm s).0
unfolding read get_messages_from_topics
read-IsOpen req sm s v =
    elim (Option-cases (collect_topics req.topic_id req.from_message_id s [])) [
      | inl missing ↦ rw (read, get_messages_from_topics, missing) v
      | inr (messages, found) ↦
          rw (read, get_messages_from_topics, found) (open_subscription_channel-IsOpen req sm v)
    ]

subscribe_topic-IsStreaming :
    (req : SubscribeTopicRequest) (n n' : Node) (a : Answer (List MessageEvent × ℕ))
    → subscribe_topic req n ≡ returns (n', a)
    → IsStreaming n
    → IsStreaming n'
unfolding subscribe_topic read
subscribe_topic-IsStreaming req n n' a h v =
    let sm : SubscriptionManager =
      (validate_subscription_token req.subscribe_token req.user_id n.subscription_manager).0 in
    let validated : IsOpen sm =
      validate_subscription_token-IsOpen req.subscribe_token req.user_id n.subscription_manager v in
    let opened : IsOpen (read req sm n.storage).0 = read-IsOpen req sm n.storage validated in
    elim (Bool-cases
      (validate_subscription_token req.subscribe_token req.user_id n.subscription_manager).1) [
        | inr not_valid ↦ let same : n ≡ n' = ground arith in subst IsStreaming same v
        | inl accepted ↦ elim (Option-cases (read req sm n.storage).1.error) [
          | inl fine ↦
              let same : (read req sm n.storage).0 ≡ n'.subscription_manager = ground arith in
              subst IsOpen same opened
          | inr (e, failed) ↦
              let (cleared, done_clear, w) =
                clear_subscription-IsOpen req.subscribe_token (read req sm n.storage).0 opened in
              let same : cleared ≡ n'.subscription_manager = ground arith in subst IsOpen same w
        ]
      ]

Step-IsStreaming : {n n' : Node} → Step n n' → IsStreaming n → IsStreaming n'
Step-IsStreaming {n} {n'} (writes req now {event} room h) v =
    Same-IsStreaming n n' (begin-Same req now n n' event h) v
Step-IsStreaming {n} {n'} (answers event {r} h) v =
    Same-IsStreaming n n' (finish_replication-Same event n n' r h) v
Step-IsStreaming {n} (receives_event event) v =
    Same-IsStreaming n (buffer_event event n) (buffer_event-Same event n) v
Step-IsStreaming {n} {n'} (receives_ack seq h) v =
    Same-IsStreaming n n' (buffer_ack-Same seq n n' h) v
Step-IsStreaming {n} {n'} (replicates {event} room found h) v =
    Same-IsStreaming n n' (replicate_next-Same event n n' h) v
Step-IsStreaming {n} {n'} (acknowledges {event} found h) v = process_ack-IsStreaming event n n' h v
Step-IsStreaming {n} (gets_predecessor pred) v =
    Same-IsStreaming n (set_predecessor pred n) (set_predecessor-Same pred n) v
Step-IsStreaming {n} {n'} (gets_successor succ reply h) v =
    Same-IsStreaming n n' (set_successor-Same succ reply n n' h) v
Step-IsStreaming {n} (gets_subscription req token) v =
    add_subscription_request-IsStreaming req token n v
Step-IsStreaming {n} {n'} (subscribes req {a = a} h) v = subscribe_topic-IsStreaming req n n' a h v
Step-IsStreaming {n} {n'} (streams c {event = event} h) v =
    stream_event-IsStreaming c n n' event h v
Step-IsStreaming {n} {n'} (ends_subscription token h) v =
    end_subscription-IsStreaming token n n' h v

-- In every state that a node can reach, its subscriptions are in order: every channel that a
-- topic lists is open, an active subscription has a channel of its own and stands in the list of
-- a topic as often as it names it.
pub Reach-IsStreaming : {name address : String} {n : Node} → Reach name address n → IsStreaming n
unfolding new_server
Reach-IsStreaming start = new_subscription_manager-IsOpen
Reach-IsStreaming (next r st) = Step-IsStreaming st (Reach-IsStreaming r)
