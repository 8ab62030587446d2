-- ===== src/Node/State.antt =====
-- pkg/server/server.go, server_connections.go: the state of a node, and its place in the chain. A
-- connection is the address that it leads to. `sent` lists the calls that the node has made to its
-- neighbors, the oldest first; their errors are only logged, so they do not come back to the state.
use razpravljalnica.Base.{Bool, List, Option, String, [], if◌then◌else◌, is_some, none, not, some}
use razpravljalnica.Int64.{Int64}
use razpravljalnica.Dict.{Dict}
use razpravljalnica.Event.{Event, NodeInfo}
use razpravljalnica.Status.{
  Code, not_found, permission_denied, already_exists, invalid_argument, failed_precondition,
}
use razpravljalnica.EventBuffer.{EventBuffer, new_event_buffer}
use razpravljalnica.AckSync.{AckSynchronization, new_ack_synchronization}
use razpravljalnica.Subscriptions.{SubscriptionManager, new_subscription_manager}
use razpravljalnica.Storage.Types.{
  Storage, StorageError, new_storage, topic_not_found, user_not_found, msg_not_found,
  user_not_author, user_already_liked, invalid_limit,
}

pub data Rpc : Type 0 where
  replicate_event : (successor : String) → Event → Rpc
  acknowledge_event : (predecessor : String) → (sequence_number : Int64) → Rpc

pub record Node : Type 0 where
  pub node_info : NodeInfo
  pub storage : Storage
  pub event_buffer : EventBuffer
  pub ack_sync : AckSynchronization
  pub subscription_manager : SubscriptionManager
  pub predecessor : Option String
  pub successor : Option String
  pub ack_queue : Dict Int64 Event
  pub next_ack_seq : Int64
  pub event_queue : Dict Int64 Event
  pub next_event_seq : Int64
  pub sent : List Rpc

-- `NewServer`, before it registers with the control plane
unfoldable pub new_server : String → String → Node
unfolding new_storage new_event_buffer new_ack_synchronization new_subscription_manager
new_server name address = record {
  node_info = record { node_id = name; address = address };
  storage = new_storage;
  event_buffer = new_event_buffer;
  ack_sync = new_ack_synchronization;
  subscription_manager = new_subscription_manager;
  predecessor = none;
  successor = none;
  ack_queue = [];
  next_ack_seq = 0;
  event_queue = [];
  next_event_seq = 0;
  sent = [];
}

unfoldable pub is_head : Node → Bool
is_head n = not (is_some n.predecessor)

unfoldable pub is_tail : Node → Bool
is_tail n = not (is_some n.successor)

unfoldable pub require_head : Node → Option Code
unfolding is_head
require_head n = if not (is_head n) then some failed_precondition else none

unfoldable pub require_tail : Node → Option Code
unfolding is_tail
require_tail n = if not (is_tail n) then some failed_precondition else none

-- The text of a status is left out. Every error of the storage is named here, so the default of
-- the switch, `internal`, is not taken.
unfoldable pub handle_storage_error : StorageError → Code
handle_storage_error topic_not_found = not_found
handle_storage_error user_not_found = not_found
handle_storage_error msg_not_found = not_found
handle_storage_error user_not_author = permission_denied
handle_storage_error user_already_liked = already_exists
handle_storage_error invalid_limit = invalid_argument

-- A connection is made anew for each neighbor that is set; closing the old one has no effect here.
unfoldable pub set_successor_connection : Option NodeInfo → Node → Node
set_successor_connection none n = record n { successor = none }
set_successor_connection (some info) n = record n { successor = some info.address }

-- The queue of events is cleared only if there is a predecessor, which then sends them again.
unfoldable pub set_predecessor_connection : Option NodeInfo → Node → Node
set_predecessor_connection none n = record n { predecessor = none }
set_predecessor_connection (some info) n = record n {
  predecessor = some info.address;
  event_queue = [];
}

unfoldable pub get_successor_client : Node → Option String
get_successor_client n = n.successor

unfoldable pub get_predecessor_client : Node → Option String
get_predecessor_client n = n.predecessor
