-- ===== src/Node/Writes.antt =====
-- pkg/server/server_messages.go, server_user.go, server_topics.go: the writes of a client. A
-- handler has two parts with the wait for the acknowledgment between them: it refuses the request,
-- or logs an event and starts its replication; then it answers with the result. `now` is the time.
use razpravljalnica.Base.{
  nat_eq, string_eq, ℕ, Bool, List, Option, String, [], false, if◌then◌else◌, none, some, ◌==◌,
  ◌||◌, ◌∷◌,
}
use razpravljalnica.Int64.{not_positive}
use razpravljalnica.Event.{
  Event, PostMessageRequest, UpdateMessageRequest, DeleteMessageRequest, LikeMessageRequest,
  CreateUserRequest, CreateTopicRequest,
}
use razpravljalnica.EventBuffer.{
  EventBuffer, create_message_event, update_message_event, delete_message_event, like_message_event,
  create_user_event, create_topic_event,
}
use razpravljalnica.AckSync.{EventApplicationResult}
use razpravljalnica.Storage.Types.{Message, User, Topic}
use razpravljalnica.Status.{Code, invalid_argument}
use razpravljalnica.Node.State.{Node, require_head, handle_storage_error}
use razpravljalnica.Node.Replicate.{start_replication}

pub data Begun : Type 0 where
  refused : Code → Begun
  waiting : Event → Node → Begun

-- `req.Text == ""`
abbrev str_is_empty : String → Bool
str_is_empty text = text == ""

abbrev any_of : List Bool → Bool
any_of [] = false
any_of (b ∷ bs) = b || any_of bs

-- The event is logged in the buffer, and then goes into the queue.
abbrev pub log_and_start : EventBuffer × Event → Node → Begun
log_and_start (buffer, event) n =
    waiting event (start_replication event (record n { event_buffer = buffer }))

-- The first check that fails decides.
abbrev pub checked : Node → List Bool → Begun → Begun
checked n faults go = elim (require_head n) [
  | some code ↦ refused code
  | none ↦ if any_of faults then refused invalid_argument else go
]

unfoldable pub post_message_begin : PostMessageRequest → ℕ → Node → Begun
post_message_begin req now n =
    checked n (str_is_empty req.text ∷ not_positive req.topic_id ∷ not_positive req.user_id ∷ [])
      (log_and_start (create_message_event req now n.event_buffer) n)

unfoldable pub update_message_begin : UpdateMessageRequest → ℕ → Node → Begun
update_message_begin req now n =
    checked n
      (str_is_empty req.text
        ∷ not_positive req.topic_id
        ∷ not_positive req.user_id
        ∷ not_positive req.message_id
        ∷ [])
      (log_and_start (update_message_event req now n.event_buffer) n)

unfoldable pub delete_message_begin : DeleteMessageRequest → ℕ → Node → Begun
delete_message_begin req now n =
    checked n
      (not_positive req.topic_id ∷ not_positive req.user_id ∷ not_positive req.message_id ∷ [])
      (log_and_start (delete_message_event req now n.event_buffer) n)

unfoldable pub like_message_begin : LikeMessageRequest → ℕ → Node → Begun
like_message_begin req now n =
    checked n
      (not_positive req.topic_id ∷ not_positive req.user_id ∷ not_positive req.message_id ∷ [])
      (log_and_start (like_message_event req now n.event_buffer) n)

unfoldable pub create_user_begin : CreateUserRequest → ℕ → Node → Begun
create_user_begin req now n =
    checked n (str_is_empty req.name ∷ [])
      (log_and_start (create_user_event req now n.event_buffer) n)

unfoldable pub create_topic_begin : CreateTopicRequest → ℕ → Node → Begun
create_topic_begin req now n =
    checked n (str_is_empty req.name ∷ [])
      (log_and_start (create_topic_event req now n.event_buffer) n)

-- `(value, error)` of a handler
pub data Answer {ℓ} (A : Type ℓ) : Type ℓ where
  value : A → Answer A
  error : Code → Answer A

-- The last part of each handler: an error of the storage, or the value of the result.
unfoldable pub answer {ℓ} :
    {A : Type ℓ} → (EventApplicationResult → A) → EventApplicationResult → Answer A
answer pick r = elim r.err [ none ↦ value (pick r) | some e ↦ error (handle_storage_error e) ]

abbrev pub post_message_answer : EventApplicationResult → Answer (Option Message)
post_message_answer = answer (λ r. r.message)

abbrev pub delete_message_answer : EventApplicationResult → Answer (Unit {0})
delete_message_answer = answer (λ _. tt)

abbrev pub create_user_answer : EventApplicationResult → Answer (Option User)
create_user_answer = answer (λ r. r.user)

abbrev pub create_topic_answer : EventApplicationResult → Answer (Option Topic)
create_topic_answer = answer (λ r. r.topic)
