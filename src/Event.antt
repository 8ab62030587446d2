-- ===== src/Event.antt =====
-- proto/razpravljalnica.proto: the requests of a client, and the events that the chain replicates.
-- A pointer to a message is an `Option`; a time is a number of nanoseconds.
use razpravljalnica.Base.{ℕ, String, Option, none}
use razpravljalnica.Int64.{Int64}

pub data OpType : Type 0 where
  op_post op_like op_delete op_update op_create_user op_create_topic : OpType

pub record PostMessageRequest : Type 0 where
  pub topic_id : Int64
  pub user_id : Int64
  pub text : String

pub record UpdateMessageRequest : Type 0 where
  pub topic_id : Int64
  pub user_id : Int64
  pub message_id : Int64
  pub text : String

pub record DeleteMessageRequest : Type 0 where
  pub topic_id : Int64
  pub user_id : Int64
  pub message_id : Int64

pub record LikeMessageRequest : Type 0 where
  pub topic_id : Int64
  pub message_id : Int64
  pub user_id : Int64

pub record CreateUserRequest : Type 0 where
  pub name : String

pub record CreateTopicRequest : Type 0 where
  pub name : String

pub record Event : Type 0 where
  pub sequence_number : Int64
  pub op : OpType
  pub event_at : ℕ
  pub post_message : Option PostMessageRequest
  pub like_message : Option LikeMessageRequest
  pub delete_message : Option DeleteMessageRequest
  pub update_message : Option UpdateMessageRequest
  pub create_user : Option CreateUserRequest
  pub create_topic : Option CreateTopicRequest

-- `&pb.Event{SequenceNumber: n, Op: op, EventAt: now}`, its other fields nil
abbrev pub bare_event : Int64 → OpType → ℕ → Event
bare_event n op now = record {
  sequence_number = n;
  op = op;
  event_at = now;
  post_message = none;
  like_message = none;
  delete_message = none;
  update_message = none;
  create_user = none;
  create_topic = none;
}

pub record NodeInfo : Type 0 where
  pub node_id : String
  pub address : String
