-- ===== src/Node/Growth.antt =====
-- pkg/server, pkg/storage: how far a log takes the counters of the storage that it is applied to.
-- A log that is not too long, of events that carry what their kind says, is applied without a panic.
pub mod Steps
pub mod Logs
use razpravljalnica.Base.{nat_eq, none, ◌+◌, ◌≢◌, ◌≤◌, ℕ}
use razpravljalnica.Int64.{Int64}
use razpravljalnica.Event.{
  Event, OpType, op_post, op_like, op_delete, op_update, op_create_user, op_create_topic,
}
use razpravljalnica.Storage.Types.{Storage}
use razpravljalnica.Storage.Messages.{
  counter, post_message, update_message, delete_message, like_message,
}
use razpravljalnica.Storage.Users.{create_user}
use razpravljalnica.Storage.Topics.{create_topic}
use razpravljalnica.Storage.Valid.Defs.{IsValid}

-- An event carries the request of its kind, as each constructor of the event buffer makes it.
abbrev pub Carries : OpType → Event → Type 0
Carries op_post event = event.post_message ≢ none
Carries op_update event = event.update_message ≢ none
Carries op_delete event = event.delete_message ≢ none
Carries op_like event = event.like_message ≢ none
Carries op_create_user event = event.create_user ≢ none
Carries op_create_topic event = event.create_topic ≢ none

abbrev pub IsComplete : Event → Type 0
IsComplete event = Carries event.op event

-- A valid storage whose counters are not above `k + 1`.
pub record IsWithin (k : ℕ) (s : Storage) : Type 0 where
  pub valid : IsValid s
  pub users : s.next_user_id ≤ k + 1
  pub topics : s.next_topic_id ≤ k + 1
  pub messages : (t : Int64) → counter t s.next_message_id ≤ k + 1
