-- ===== src/Control/Fsm.antt =====
-- pkg/control/control_fsm.go: the state machine that Raft replicates. A command is what the bytes of
-- a log entry decode to, and a snapshot what the bytes of a stored one do.
use razpravljalnica.Base.{nat_eq, string_eq, ℕ, Bool, List, Option, String, none, option_map, some}
use razpravljalnica.Dict.{Dict, map_values}
use razpravljalnica.Event.{NodeInfo}
use razpravljalnica.Status.{CallError}
use razpravljalnica.Control.State.{NodeEntry, ControlPlane}
use razpravljalnica.Control.Nodes.{
  RegisterNodeResult, register_node, unregister_node, update_chain, get_subscription_node,
}

pub data RaftCommand : Type 0 where
  op_register : NodeInfo → RaftCommand
  op_unregister : NodeInfo → RaftCommand
  op_update_chain : List String → RaftCommand
  op_subscribe : RaftCommand

-- What `Apply` returns to the node that sent the command.
pub data Response : Type 0 where
  registered : RegisterNodeResult → Response
  updated : Response
  subscribed : Option String × Option CallError → Response

unfoldable pub apply :
    (String → Bool) → RaftCommand → ControlPlane → Option (ControlPlane × Response)
apply dials (op_register info) cp =
    option_map (λ (r : ControlPlane × RegisterNodeResult). (r.0, registered r.1))
      (register_node dials info cp)
apply dials (op_unregister info) cp =
    option_map (λ (r : ControlPlane × RegisterNodeResult). (r.0, registered r.1))
      (unregister_node info cp)
apply dials (op_update_chain ids) cp = some (update_chain ids cp, updated)
apply dials op_subscribe cp =
    option_map (λ (r : ControlPlane × (Option String × Option CallError)). (r.0, subscribed r.1))
      (get_subscription_node cp)

pub record RaftSnapshot : Type 0 where
  pub nodes : Dict String NodeInfo
  pub chain : List String
  pub last_control_index : ℕ

unfoldable pub snapshot : ControlPlane → RaftSnapshot
snapshot cp = record {
  nodes = map_values (λ (e : NodeEntry). e.info) cp.nodes;
  chain = cp.chain;
  last_control_index = cp.last_control_index;
}

-- A node of a snapshot has sent no heartbeat to this control plane.
abbrev pub revive : NodeInfo → NodeEntry
revive info = record { info = info; last_heartbeat = none }

-- The state that was there before is dropped; no heartbeat is kept.
unfoldable pub restore : RaftSnapshot → ControlPlane
restore s = record {
  nodes = map_values revive s.nodes;
  chain = s.chain;
  last_control_index = s.last_control_index;
}
