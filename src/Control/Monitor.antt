-- ===== src/Control/Monitor.antt =====
-- pkg/control/control_heartbeat.go, `monitorHeartbeats`: one tick of the monitor. The lock is free
-- between its three parts; here no other command comes between them. `raft_err` is a failure of Raft.
pub mod Ticks
use razpravljalnica.Base.{ℕ, Bool, List, Option, String, [], if◌then◌else◌, none, not, some}
use razpravljalnica.Status.{CallError}
use razpravljalnica.Control.State.{ControlPlane}
use razpravljalnica.Control.Nodes.{update_chain}
use razpravljalnica.Control.Heartbeat.{Reconnect, identify_dead_nodes, is_empty, reconnect_chain}

-- The command is `apply` of `op_update_chain`, which does not fail.
unfoldable pub remove_nodes_via_raft :
    Option CallError → List String → ControlPlane → ControlPlane × Option CallError
remove_nodes_via_raft (some e) node_ids cp = (cp, some e)
remove_nodes_via_raft none node_ids cp = (update_chain node_ids cp, none)

-- The error of the removal is only logged. The reconnections are started in goroutines.
unfoldable pub monitor_tick :
    Bool → Option CallError → ℕ → ControlPlane → Option (ControlPlane × List Reconnect)
monitor_tick leader raft_err now cp =
    if not leader then some (cp, []) else elim (identify_dead_nodes now cp) [
      | none ↦ none
      | some (cp', (dead_node_ids, old_chain)) ↦
          let removed = (remove_nodes_via_raft raft_err dead_node_ids cp').0 in
          if is_empty dead_node_ids
          then some (cp', [])
          else some (removed, reconnect_chain old_chain dead_node_ids removed)
    ]
