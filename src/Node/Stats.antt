-- ===== src/Node/Stats.antt =====
-- pkg/server/server_stats.go: the figures that a node shows.
use razpravljalnica.Base.{ℕ, Bool, Option, String, is_some, none, not, some, ◌&&◌, if◌then◌else◌}
use razpravljalnica.Int64.{Int64}
use razpravljalnica.EventBuffer.{get_last_received_and_applied}
use razpravljalnica.Storage.Types.{get_message_count, get_topic_count, get_user_count}
use razpravljalnica.Node.State.{Node}

-- "SINGLE", "HEAD", "TAIL" and "MIDDLE"
pub data Role : Type 0 where
  single head tail middle : Role

pub record ServerStatsSnapshot : Type 0 where
  pub node_id : String
  pub node_addr : String
  pub role : Role
  pub control_plane_addr : String
  pub predecessor_addr : String
  pub successor_addr : String
  pub events_processed : Int64
  pub events_applied : Int64
  pub messages_stored : ℕ
  pub topics_count : ℕ
  pub users_count : ℕ

abbrev pub role_of : Bool → Bool → Role
role_of has_pred has_succ =
    if not has_pred && not has_succ
    then single
    else if not has_pred && has_succ
    then head
    else if has_pred && not has_succ
    then tail
    else middle

abbrev address_or : String → Option String → String
address_or absent none = absent
address_or absent (some address) = address

-- `GetStats`; the first argument is the connection to the control plane.
unfoldable pub get_stats : Option String → Node → ServerStatsSnapshot
unfolding get_last_received_and_applied get_message_count get_topic_count get_user_count
get_stats control_plane n = record {
  node_id = n.node_info.node_id;
  node_addr = n.node_info.address;
  role = role_of (is_some n.predecessor) (is_some n.successor);
  control_plane_addr = address_or "N/A" control_plane;
  predecessor_addr = address_or "" n.predecessor;
  successor_addr = address_or "" n.successor;
  events_processed = (get_last_received_and_applied n.event_buffer).0;
  events_applied = (get_last_received_and_applied n.event_buffer).1;
  messages_stored = get_message_count n.storage;
  topics_count = get_topic_count n.storage;
  users_count = get_user_count n.storage;
}

unfoldable pub get_predecessor_and_successor_addresses : Option String → Node → String × String
unfolding get_stats
get_predecessor_and_successor_addresses control_plane n =
    ((get_stats control_plane n).predecessor_addr, (get_stats control_plane n).successor_addr)
