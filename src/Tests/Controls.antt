-- ===== src/Tests/Controls.antt =====
-- pkg/control on a chain of two nodes.
use razpravljalnica.Base.{
  nat_eq, string_eq, Bool, List, String, refl, some, true, ◌≡◌, [], ◌∷◌, none, arith, get_elem?,
  not, inr,
}
use razpravljalnica.Dict.{lookup, insert, erase}
use razpravljalnica.Event.{NodeInfo}
use razpravljalnica.Control.State.{ControlPlane, NodeEntry, new_control_plane, append_node}
use razpravljalnica.Control.Fsm.{apply, op_unregister}
use razpravljalnica.Control.Chain.{IsChain, new_control_plane-IsChain, append_node-IsChain}
use razpravljalnica.Control.Commands.{Succeeds, apply-IsChain}
use razpravljalnica.Control.Nodes.{update_chain, sweep}
use razpravljalnica.Control.Heartbeat.{reconnect_chain}
use razpravljalnica.Control.Reconnect.{calls, told, told_pred, settled}
use razpravljalnica.Control.Reconnect.Heads.{reconnect_chain-pred}
use razpravljalnica.Control.Reconnect.Successors.{reconnect_chain-succ}
use razpravljalnica.Control.Rotation.{HasTurns, turns, get_subscription_node-rotates}
use razpravljalnica.Control.Reconnect.{keep}
use razpravljalnica.Control.Heartbeat.{Reconnect, set_successor}
use razpravljalnica.Control.Monitor.{monitor_tick}
use razpravljalnica.Control.Monitor.Ticks.{is_dead, monitor_tick_lem}
use razpravljalnica.Control.Registration.{register_node_rpc, register_node_rpc_lem}
use razpravljalnica.Control.State.{get_tail, last_of}
use razpravljalnica.Outcome.{returns}

abbrev info : String → NodeInfo
info id = record { node_id = id; address = ":1" }

abbrev entry : String → NodeEntry
entry id = record { info = info id; last_heartbeat = some 4 }

abbrev two_nodes : ControlPlane
two_nodes = append_node (entry "b") (append_node (entry "a") new_control_plane)

two_nodes-IsChain : IsChain two_nodes
unfolding append_node new_control_plane lookup insert
two_nodes-IsChain =
    append_node-IsChain (entry "b") _
      (append_node-IsChain (entry "a") new_control_plane new_control_plane-IsChain refl refl) refl
      refl

abbrev dials : String → Bool
dials address = true

apply-IsChain_example : Succeeds (apply dials (op_unregister (info "a")) two_nodes)
apply-IsChain_example = apply-IsChain dials (op_unregister (info "a")) two_nodes two_nodes-IsChain

-- Four nodes, of which the HEAD and the third are removed.
abbrev four_nodes : ControlPlane
four_nodes = append_node (entry "d") (append_node (entry "c") two_nodes)

four_nodes-IsChain : IsChain four_nodes
unfolding append_node new_control_plane lookup insert
four_nodes-IsChain =
    append_node-IsChain (entry "d") _
      (append_node-IsChain (entry "c") two_nodes two_nodes-IsChain refl refl) refl refl

abbrev removed : List String
removed = "a" ∷ "c" ∷ []

reconnect_chain-succ_example :
    settled
      (told "b"
        (calls (reconnect_chain four_nodes.chain removed (update_chain removed four_nodes))))
      (some "c")
    ≡ some (some "d")
unfolding append_node new_control_plane lookup insert update_chain sweep erase
reconnect_chain-succ_example = reconnect_chain-succ removed four_nodes "b" four_nodes-IsChain refl

reconnect_chain-pred_example :
    settled
      (told_pred "b"
        (calls (reconnect_chain four_nodes.chain removed (update_chain removed four_nodes))))
      (some "a")
    ≡ some none
unfolding append_node new_control_plane lookup insert update_chain sweep erase
reconnect_chain-pred_example = reconnect_chain-pred removed four_nodes "b" four_nodes-IsChain refl

two_nodes-HasTurns : HasTurns two_nodes
unfolding append_node new_control_plane lookup insert
two_nodes-HasTurns = record {
  chain_ok = two_nodes-IsChain;
  inhabited = omega arith;
  small = omega arith;
  index = omega arith;
}

get_subscription_node-rotates_example :
    (ids : List String) × (turns 3 two_nodes ≡ some ids) × (get_elem? ids 2 ≡ some "b")
unfolding append_node new_control_plane lookup insert
get_subscription_node-rotates_example =
    get_subscription_node-rotates 3 2 two_nodes two_nodes-HasTurns (omega arith)

-- At the time 9 of "b", which has sent its heartbeat at 4 s, in nanoseconds.
monitor_tick_lem_example :
    (cp' : ControlPlane) × (calls : List Reconnect) × (monitor_tick true none 9000000000 two_nodes
      ≡ some (cp', calls))
    × IsChain cp'
    × (cp'.chain ≡ keep (λ id. not (is_dead 9000000000 two_nodes.nodes id)) two_nodes.chain)
monitor_tick_lem_example = monitor_tick_lem 9000000000 two_nodes two_nodes-IsChain

register_node_rpc_lem_example :
    (cp' : ControlPlane) × (register_node_rpc dials true none (info "c") two_nodes
      ≡ returns (cp', (set_successor "b" (some "c") ∷ [], inr (some (info "b")))))
    × (cp'.chain ≡ "a" ∷ "b" ∷ "c" ∷ [])
    × IsChain cp'
unfolding append_node new_control_plane lookup insert get_tail last_of
register_node_rpc_lem_example =
    register_node_rpc_lem dials (info "c") two_nodes two_nodes-IsChain refl refl refl
