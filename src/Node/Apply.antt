-- ===== src/Node/Apply.antt =====
-- pkg/server/server.go, `applyEvent`: an event that the chain has accepted is carried out on the
-- storage, and told to the subscribers.
use razpravljalnica.Base.{none, some}
use razpravljalnica.Outcome.{Outcome, returns, ◌>>=◌, or_panic}
use razpravljalnica.Event.{
  Event, op_post, op_like, op_delete, op_update, op_create_user, op_create_topic,
}
use razpravljalnica.AckSync.{EventApplicationResult}
use razpravljalnica.Subscriptions.{add_event_if_not_nil}
use razpravljalnica.Storage.Types.{Message, Storage, Reply}
use razpravljalnica.Storage.Messages.{post_message, update_message, delete_message, like_message}
use razpravljalnica.Storage.Users.{create_user}
use razpravljalnica.Storage.Topics.{create_topic}
use razpravljalnica.Node.State.{Node}

abbrev pub message_result : Reply Message → EventApplicationResult
message_result r = record { message = r.value; user = none; topic = none; err = r.error }

-- `n.subscriptionManager.AddEventIfNotNil(event, msg)` after a write to the messages
abbrev pub with_message :
    Event → Node → Storage × Reply Message → Outcome (Node × EventApplicationResult)
with_message event n (s, r) = do
  sm ← or_panic (add_event_if_not_nil (some event) r.value n.subscription_manager)
  returns (record n { storage = s; subscription_manager = sm }, message_result r)

unfoldable pub apply_event : Event → Node → Outcome (Node × EventApplicationResult)
apply_event event n = elim event.op [
  | op_post ↦ do
    req ← or_panic event.post_message
    done_post ← or_panic (post_message req.topic_id req.user_id req.text event.event_at n.storage)
    with_message event n done_post
  | op_update ↦ do
    req ← or_panic event.update_message
    with_message event n (update_message req.topic_id req.user_id req.message_id req.text n.storage)
  | op_delete ↦ do
    req ← or_panic event.delete_message
    with_message event n (delete_message req.topic_id req.user_id req.message_id n.storage)
  | op_like ↦ do
    req ← or_panic event.like_message
    with_message event n (like_message req.topic_id req.user_id req.message_id n.storage)
  | op_create_user ↦ do
    req ← or_panic event.create_user
    let created = create_user req.name n.storage
    returns (
      record n { storage = created.0 },
      record { message = none; user = created.1.value; topic = none; err = created.1.error },
    )
  | op_create_topic ↦ do
    req ← or_panic event.create_topic
    let created = create_topic req.name n.storage
    returns (
      record n { storage = created.0 },
      record { message = none; user = none; topic = created.1.value; err = created.1.error },
    )
]
