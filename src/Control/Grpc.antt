-- ===== src/Control/Grpc.antt =====
-- pkg/control/control_grpc.go, control_client_discovery.go, control.go: the calls that the control
-- plane serves. A call is submitted to Raft by the leader, and is answered from the state when it
-- has been applied; other commands may have been applied by then, so the answer takes the state
-- that it reads. A failure of Raft (`raft_err`) and the answer of a node are arguments.
use razpravljalnica.Base.{
  nat_eq, string_eq, ℕ, Bool, List, Option, String, [], if◌then◌else◌, inl, inr, none, some, ◌+◌,
  ◌==◌, ◌∷◌, ◌⊎◌,
}
use razpravljalnica.Event.{NodeInfo}
use razpravljalnica.Status.{Code, CallError, status, failed_precondition, not_found}
use razpravljalnica.Control.State.{ControlPlane, get_node, get_head, get_tail}
use razpravljalnica.Control.Nodes.{RegisterNodeResult}
use razpravljalnica.Control.Heartbeat.{Reconnect, NeighborCall, set_successor}
use razpravljalnica.Control.Fsm.{RaftCommand, Response, apply}

unfoldable pub ensure_leader : Bool → Option Code
ensure_leader leader = if leader then none else some failed_precondition

-- What becomes of a command: it is refused, Raft fails, or it is applied.
pub data Submitted : Type 0 where
  refused : CallError → Submitted
  applied : ControlPlane → Response → Submitted
  crashed : Submitted

-- `ensureLeader` and `applyRaftCommand`
unfoldable pub submit :
    (String → Bool) → Bool → Option CallError → RaftCommand → ControlPlane → Submitted
submit dials leader raft_err command cp = elim (ensure_leader leader) [
  | some code ↦ refused (status code)
  | none ↦ elim raft_err [
    | some e ↦ refused e
    | none ↦ elim (apply dials command cp) [ none ↦ crashed | some (cp', r) ↦ applied cp' r ]
  ]
]

-- `RegisterNode` after its command: the old TAIL is told of its successor, and the new node of its
-- predecessor. A result with an error has no predecessor.
unfoldable pub register_node_reply :
    RegisterNodeResult
    → NodeInfo
    → ControlPlane
    → List NeighborCall × (Option NodeInfo × Option CallError)
unfolding get_node
register_node_reply result info cp = elim (get_node result.predecessor_id cp) [
  | none ↦ ([], (none, result.err))
  | some pred ↦
      (set_successor pred.info.node_id (some info.node_id) ∷ [], (some pred.info, result.err))
]

-- A neighbor by its id: the empty id is none, and an id that is not registered (any more) is
-- invalid, which is the `none` of the result.
abbrev neighbor : String → ControlPlane → Option (Option String)
neighbor id cp =
    if id == ""
    then some none
    else elim (get_node id cp) [ none ↦ none | some entry ↦ some (some entry.info.node_id) ]

-- `UnregisterNode` after its command: the neighbors are connected, if both are still there.
unfoldable pub unregister_node_reply : RegisterNodeResult → ControlPlane → Option Reconnect
unfolding get_node
unregister_node_reply result cp = elim (neighbor result.predecessor_id cp) [
  | none ↦ none
  | some pred ↦ elim (neighbor result.successor_id cp) [
    | none ↦ none
    | some succ ↦ some (record { pred = pred; succ = succ })
  ]
]

-- `GetSubscriptionNode` after its command. `ask node` is the answer of the node's
-- `AddSubscriptionRequest`, a token or an error.
unfoldable pub get_subscription_node_reply :
    (NodeInfo → CallError ⊎ String)
    → Option String × Option CallError
    → ControlPlane
    → CallError ⊎ (NodeInfo × String)
unfolding get_node
get_subscription_node_reply ask (node_id, some e) cp = inl e
get_subscription_node_reply ask (none, none) cp = inl (status not_found)
get_subscription_node_reply ask (some node_id, none) cp = elim (get_node node_id cp) [
  | none ↦ inl (status not_found)
  | some entry ↦ elim (ask entry.info) [ inl e ↦ inl e | inr token ↦ inr (entry.info, token) ]
]

-- HEAD and TAIL, or neither.
unfoldable pub get_cluster_state : Bool → ControlPlane → Code ⊎ Option (NodeInfo × NodeInfo)
unfolding get_head get_tail
get_cluster_state leader cp = elim (ensure_leader leader) [
  | some code ↦ inl code
  | none ↦ elim (get_head cp) [
    | none ↦ inr none
    | some head ↦ elim (get_tail cp) [
      | none ↦ inr none
      | some tail ↦ inr (some (head.info, tail.info))
    ]
  ]
]

pub data Role : Type 0 where
  single head middle tail : Role

-- The role of the node at index `i` of a chain of `n` nodes, as `GetStats` shows it.
unfoldable pub role : ℕ → ℕ → Role
role n i = if n == 1 then single else if i == 0 then head else if i + 1 == n then tail else middle
