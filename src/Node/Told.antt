-- ===== src/Node/Told.antt =====
-- pkg/server/server.go, `applyEvent`: the message of a result tells what has become of the storage.
use razpravljalnica.Base.{
  nat_eq, arith, none, some, ◌≡◌, ◌⊎◌, inl, inr, refl, String, [], true, Option-cases,
}
use razpravljalnica.Int64.{Int64}
use razpravljalnica.Dict.{Dict, lookup, contains, lookup-insert}
use razpravljalnica.Outcome.{returns}
use razpravljalnica.Event.{
  Event, PostMessageRequest, UpdateMessageRequest, LikeMessageRequest, DeleteMessageRequest,
  CreateUserRequest, CreateTopicRequest, op_post, op_like, op_delete, op_update, op_create_user,
  op_create_topic,
}
use razpravljalnica.AckSync.{EventApplicationResult}
use razpravljalnica.Storage.Types.{Message, Topic, Storage, Reply}
use razpravljalnica.Storage.Messages.{
  find_message, post_message, update_message, delete_message, like_message,
}
use razpravljalnica.Storage.Users.{create_user}
use razpravljalnica.Storage.Topics.{create_topic}
use razpravljalnica.Storage.Effects.{
  written, erased, post_message-written, update_message-written, delete_message-erased,
  like_message-written,
}
use razpravljalnica.Storage.Valid.Defs.{IsValid, IsStored}
use razpravljalnica.Node.State.{Node}
use razpravljalnica.Node.Apply.{apply_event}

-- What applying an event does to the stored messages, told from the message of its result
pub applied_write :
    (event : Event) (n n' : Node) (result : EventApplicationResult)
    → IsValid n.storage
    → (event.op ≡ op_post) ⊎ ((event.op ≡ op_update) ⊎ (event.op ≡ op_like))
    → apply_event event n ≡ returns (n', result)
    → (t m : Int64) → find_message t m n'.storage ≡ written result.message t m n.storage
unfolding apply_event
applied_write event n n' result v (inl op) h t m =
    let (req, (s', r), posts, stored, message) = inverted in
    rw (stored, message)
      (post_message-written req.topic_id req.user_id req.text event.event_at n.storage posts t m)
  where
    inverted :
        (req : PostMessageRequest) × (done : Storage × Reply Message) × (post_message req.topic_id
            req.user_id req.text event.event_at n.storage
          ≡ some done)
        × (n'.storage ≡ done.0)
        × (result.message ≡ done.1.value)
    inverted = elim (Option-cases event.post_message) [
      | inl missing ↦ absurd (ground arith)
      | inr (req, found) ↦
          elim (Option-cases
            (post_message req.topic_id req.user_id req.text event.event_at n.storage)) [
              | inl panicked ↦ absurd (ground arith)
              | inr (done, posts) ↦ (req, done, posts, ground arith, ground arith)
            ]
    ]
applied_write event n n' result v (inr (inl op)) h t m =
    let (req, stored, message) = inverted in
    rw (stored, message)
      (update_message-written req.topic_id req.user_id req.message_id req.text n.storage v t m)
  where
    inverted :
        (req : UpdateMessageRequest) × (n'.storage
          ≡ (update_message req.topic_id req.user_id req.message_id req.text n.storage).0)
        × (result.message
            ≡ (update_message req.topic_id req.user_id req.message_id req.text n.storage).1.value)
    inverted = elim (Option-cases event.update_message) [
      | inl missing ↦ absurd (ground arith)
      | inr (req, found) ↦ (req, ground arith, ground arith)
    ]
applied_write event n n' result v (inr (inr op)) h t m =
    let (req, stored, message) = inverted in
    rw (stored, message)
      (like_message-written req.topic_id req.user_id req.message_id n.storage v t m)
  where
    inverted :
        (req : LikeMessageRequest) × (n'.storage
          ≡ (like_message req.topic_id req.user_id req.message_id n.storage).0)
        × (result.message
            ≡ (like_message req.topic_id req.user_id req.message_id n.storage).1.value)
    inverted = elim (Option-cases event.like_message) [
      | inl missing ↦ absurd (ground arith)
      | inr (req, found) ↦ (req, ground arith, ground arith)
    ]

pub applied_delete :
    (event : Event) (n n' : Node) (result : EventApplicationResult)
    → IsValid n.storage
    → event.op ≡ op_delete
    → apply_event event n ≡ returns (n', result)
    → (t m : Int64) → find_message t m n'.storage ≡ erased result.message t m n.storage
unfolding apply_event
applied_delete event n n' result v op h t m =
    let (req, stored, message) = inverted in
    rw (stored, message)
      (delete_message-erased req.topic_id req.user_id req.message_id n.storage v t m)
  where
    inverted :
        (req : DeleteMessageRequest) × (n'.storage
          ≡ (delete_message req.topic_id req.user_id req.message_id n.storage).0)
        × (result.message
            ≡ (delete_message req.topic_id req.user_id req.message_id n.storage).1.value)
    inverted = elim (Option-cases event.delete_message) [
      | inl missing ↦ absurd (ground arith)
      | inr (req, found) ↦ (req, ground arith, ground arith)
    ]

-- A new topic has a fresh id, under which there was no message.
create_topic-find_message :
    (name : String) (s : Storage)
    → IsValid s
    → (t m : Int64) → find_message t m (create_topic name s).0 ≡ find_message t m s
unfolding create_topic lookup
create_topic-find_message name s v t m = elim (Option-cases (find_message t m s)) [
  | inl missing ↦
      ground (arith, lookup-insert {V = Dict Int64 Message} s.next_topic_id t [] s.messages)
  | inr (msg, found) ↦
      let own : IsStored s t m msg = v.stored t m msg found in
      let topic = topic_there own.in_topic in
      ground (
        arith,
        topic.1,
        v.topic_ids t topic.0 topic.1,
        lookup-insert {V = Dict Int64 Message} s.next_topic_id t [] s.messages,
      )
]
  where
    topic_there : contains t s.topics ≡ true → (topic : Topic) × (lookup t s.topics ≡ some topic)
    topic_there there = elim (Option-cases (lookup t s.topics)) [
      | inl missing ↦ absurd (ground arith)
      | inr found ↦ found
    ]

pub applied_create :
    (event : Event) (n n' : Node) (result : EventApplicationResult)
    → IsValid n.storage
    → (event.op ≡ op_create_user) ⊎ (event.op ≡ op_create_topic)
    → apply_event event n ≡ returns (n', result)
    → (result.message ≡ none)
      × ((t m : Int64) → find_message t m n'.storage ≡ find_message t m n.storage)
unfolding apply_event create_user
applied_create event n n' result v (inl op) h =
    let (req, stored, message) = inverted in (message, λ t m. rw stored refl)
  where
    inverted :
        (req : CreateUserRequest) × (n'.storage ≡ (create_user req.name n.storage).0)
        × (result.message ≡ none)
    inverted = elim (Option-cases event.create_user) [
      | inl missing ↦ absurd (ground arith)
      | inr (req, found) ↦ (req, ground arith, ground arith)
    ]
applied_create event n n' result v (inr op) h =
    let (req, stored, message) = inverted in
    (message, λ t m. rw stored (create_topic-find_message req.name n.storage v t m))
  where
    inverted :
        (req : CreateTopicRequest) × (n'.storage ≡ (create_topic req.name n.storage).0)
        × (result.message ≡ none)
    inverted = elim (Option-cases event.create_topic) [
      | inl missing ↦ absurd (ground arith)
      | inr (req, found) ↦ (req, ground arith, ground arith)
    ]
