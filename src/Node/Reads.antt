-- ===== src/Node/Reads.antt =====
-- pkg/server/server_messages.go, server_user.go, server_topics.go, server.go: the reads, which only
-- the TAIL answers, and the subscriptions, which any node serves.
use razpravljalnica.Base.{
  nat_eq, string_eq, ℕ, List, Option, String, [], if◌then◌else◌, map, none, not, some,
}
use razpravljalnica.Int64.{Int64, Int32, not_positive, not_positive_32}
use razpravljalnica.Outcome.{Outcome, returns, ◌>>=◌, or_panic}
use razpravljalnica.Event.{op_post}
use razpravljalnica.EventBuffer.{get_last_received_and_applied}
use razpravljalnica.Storage.Types.{Message, User, Topic, Reply}
use razpravljalnica.Storage.Users.{get_user, user_exists}
use razpravljalnica.Storage.Topics.{list_topics}
use razpravljalnica.Storage.Reads.{get_messages_with_limit, get_messages_from_topics}
use razpravljalnica.Subscriptions.{
  SubscriptionNodeRequest, SubscribeTopicRequest, MessageEvent, create_message_event,
  validate_subscription_token, open_subscription_channel, clear_subscription,
  add_subscription_request as add_request, receive_event,
}
use razpravljalnica.Status.{invalid_argument, not_found}
use razpravljalnica.Node.State.{Node, require_tail, handle_storage_error}
use razpravljalnica.Node.Writes.{Answer, value, error}

pub record GetMessagesRequest : Type 0 where
  pub topic_id : Int64
  pub from_message_id : Int64
  pub limit : Int32

-- A storage reply as the answer of a handler. A reply without an error has a value.
abbrev pub reply_answer {ℓ} : {A : Type ℓ} → Reply A → Answer (Option A)
reply_answer r = elim r.error [ none ↦ value r.value | some e ↦ error (handle_storage_error e) ]

abbrev pub at_tail {ℓ} : {A : Type ℓ} → Node → Answer A → Answer A
at_tail n go = elim (require_tail n) [ some code ↦ error code | none ↦ go ]

unfoldable pub get_messages_handler : GetMessagesRequest → Node → Answer (Option (List Message))
get_messages_handler req n = at_tail n (
    if not_positive req.topic_id
    then error invalid_argument
    else if not_positive_32 req.limit
    then error invalid_argument
    else reply_answer
        (get_messages_with_limit req.topic_id req.from_message_id req.limit n.storage))

unfoldable pub list_topics_handler : Node → Answer (Option (List Topic))
list_topics_handler n = at_tail n (reply_answer (list_topics n.storage))

unfoldable pub get_user_handler : Int64 → Node → Answer (Option User)
get_user_handler user_id n = at_tail n (
    if not_positive user_id
    then error invalid_argument
    else reply_answer (get_user user_id n.storage))

-- `Node.AddSubscriptionRequest`; the token comes from its generator, `none` where that fails.
unfoldable pub add_subscription_request :
    SubscriptionNodeRequest → Option String → Node → Node × Answer (Option String)
add_subscription_request req token n =
    if not (user_exists req.user_id n.storage)
    then (n, error not_found)
    else let added = add_request req token n.subscription_manager in
      (record n { subscription_manager = added.0 }, value added.1)

-- The past messages as the events that are sent first.
past : Option (List Message) → List MessageEvent
past none = []
past (some messages) = map (λ msg. create_message_event msg 0 msg.created_at op_post) messages

-- `SubscribeTopic` up to its stream: the token is checked and used up, the past messages are read,
-- and the channel of the subscription is opened while the lock of the storage is held. On a missing
-- topic the deferred clear finds no subscription to close. The answer is what is sent first, and
-- the channel that the rest of the stream comes from.
unfoldable pub subscribe_topic :
    SubscribeTopicRequest → Node → Outcome (Node × Answer (List MessageEvent × ℕ))
unfolding past
subscribe_topic req n =
    let validated =
      validate_subscription_token req.subscribe_token req.user_id n.subscription_manager in
    let read =
      get_messages_from_topics req.topic_id req.from_message_id
        (λ sm. (open_subscription_channel req sm).0) validated.0 n.storage in
    if not validated.1 then returns (n, error invalid_argument) else elim read.1.error [
      | some e ↦ do
        sm ← or_panic (clear_subscription req.subscribe_token read.0)
        returns (record n { subscription_manager = sm }, error (handle_storage_error e))
      | none ↦ returns (
        record n { subscription_manager = read.0 },
        value (past read.1.value, validated.0.next_channel),
      )
    ]

-- One turn of the stream's last loop, for the channel that `subscribe_topic` has answered with.
unfoldable pub stream_event : ℕ → Node → Outcome (Node × Option MessageEvent)
stream_event c n = do
  (sm, event) ← receive_event c n.subscription_manager
  returns (record n { subscription_manager = sm }, event)

-- The deferred clear, when the stream ends.
unfoldable pub end_subscription : String → Node → Outcome Node
end_subscription token n = do
  sm ← or_panic (clear_subscription token n.subscription_manager)
  returns (record n { subscription_manager = sm })

unfoldable pub get_last_sequence_numbers : Node → Int64 × Int64
get_last_sequence_numbers n = get_last_received_and_applied n.event_buffer
