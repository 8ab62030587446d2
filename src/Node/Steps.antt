-- ===== src/Node/Steps.antt =====
-- pkg/server: everything that a node does, as one step relation. Other nodes, the control plane and
-- the clients choose the step and its arguments, so any order of calls and any loss of messages is
-- covered; each call holds its lock, so calls do not overlap.
use razpravljalnica.Base.{nat_eq, string_eq, ℕ, List, Option, String, length, some, ◌+◌, ◌<◌, ◌≡◌}
use razpravljalnica.Int64.{Int64, half}
use razpravljalnica.Dict.{lookup}
use razpravljalnica.Outcome.{returns}
use razpravljalnica.Event.{
  Event, NodeInfo, PostMessageRequest, UpdateMessageRequest, DeleteMessageRequest,
  LikeMessageRequest, CreateUserRequest, CreateTopicRequest,
}
use razpravljalnica.EventBuffer.{
  EventBuffer, create_message_event, update_message_event, delete_message_event, like_message_event,
  create_user_event, create_topic_event,
}
use razpravljalnica.AckSync.{EventApplicationResult}
use razpravljalnica.Subscriptions.{SubscriptionNodeRequest, SubscribeTopicRequest, MessageEvent}
use razpravljalnica.Node.State.{Node, new_server}
use razpravljalnica.Node.Acks.{buffer_ack, process_ack}
use razpravljalnica.Node.Replicate.{buffer_event, replicate_next, finish_replication}
use razpravljalnica.Node.Writes.{
  Answer, Begun, waiting, post_message_begin, update_message_begin, delete_message_begin,
  like_message_begin, create_user_begin, create_topic_begin,
}
use razpravljalnica.Node.Reads.{
  add_subscription_request, subscribe_topic, end_subscription, stream_event,
}
use razpravljalnica.Node.Neighbors.{set_predecessor, set_successor}

-- A write of a client.
pub data Request : Type 0 where
  post_message : PostMessageRequest → Request
  update_message : UpdateMessageRequest → Request
  delete_message : DeleteMessageRequest → Request
  like_message : LikeMessageRequest → Request
  create_user : CreateUserRequest → Request
  create_topic : CreateTopicRequest → Request

-- The handler that gRPC calls for a write.
unfoldable pub begin : Request → ℕ → Node → Begun
unfolding post_message_begin update_message_begin delete_message_begin like_message_begin
    create_user_begin create_topic_begin
begin (post_message req) = post_message_begin req
begin (update_message req) = update_message_begin req
begin (delete_message req) = delete_message_begin req
begin (like_message req) = like_message_begin req
begin (create_user req) = create_user_begin req
begin (create_topic req) = create_topic_begin req

-- The event that a write makes of the log.
unfoldable pub logged : Request → ℕ → EventBuffer → EventBuffer × Event
unfolding create_message_event update_message_event delete_message_event like_message_event
    create_user_event create_topic_event
logged (post_message req) = create_message_event req
logged (update_message req) = update_message_event req
logged (delete_message req) = delete_message_event req
logged (like_message req) = like_message_event req
logged (create_user req) = create_user_event req
logged (create_topic req) = create_topic_event req

-- A log shorter than `2 ^ 63 - 1` events has room for one more.
abbrev pub HasRoom : Node → Type 0
HasRoom n = length n.event_buffer.events + 1 < half

pub data Step (n : Node) : Node → Type 0 where
  writes :
      (req : Request) (now : ℕ) {event : Event} {n' : Node}
      → HasRoom n
      → begin req now n ≡ waiting event n'
      → Step n n'
  answers :
      (event : Event) {r : EventApplicationResult} {n' : Node}
      → finish_replication event n ≡ returns (n', r)
      → Step n n'
  receives_event : (event : Event) → Step n (buffer_event event n)
  receives_ack : (seq : Int64) {n' : Node} → buffer_ack seq n ≡ returns n' → Step n n'
  replicates :
      {event : Event} {n' : Node}
      → HasRoom n
      → lookup n.next_event_seq n.event_queue ≡ some event
      → replicate_next event n ≡ returns n'
      → Step n n'
  acknowledges :
      {event : Event} {n' : Node}
      → lookup n.next_ack_seq n.ack_queue ≡ some event
      → process_ack event n ≡ returns n'
      → Step n n'
  gets_predecessor : (pred : Option NodeInfo) → Step n (set_predecessor pred n)
  gets_successor :
      (succ : Option NodeInfo) (reply : Option (Int64 × Int64)) {n' : Node}
      → set_successor succ reply n ≡ returns n'
      → Step n n'
  gets_subscription :
      (req : SubscriptionNodeRequest) (token : Option String)
      → Step n (add_subscription_request req token n).0
  subscribes :
      (req : SubscribeTopicRequest) {n' : Node} {a : Answer (List MessageEvent × ℕ)}
      → subscribe_topic req n ≡ returns (n', a)
      → Step n n'
  streams :
      (c : ℕ) {n' : Node} {event : Option MessageEvent}
      → stream_event c n ≡ returns (n', event)
      → Step n n'
  ends_subscription :
      (token : String) {n' : Node} → end_subscription token n ≡ returns n' → Step n n'

pub data Reach (name address : String) : Node → Type 0 where
  start : Reach name address (new_server name address)
  next : {n n' : Node} → Reach name address n → Step n n' → Reach name address n'
