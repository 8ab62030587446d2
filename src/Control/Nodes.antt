-- ===== src/Control/Nodes.antt =====
-- pkg/control/control_nodes.go, control_subscriptions.go: the commands that change the chain. These
-- run in the replicated state machine, so they see only the command and the state. `dials address`
-- says whether `grpc.NewClient` accepts an address; it does not connect. `none` is a panic.
use razpravljalnica.Base.{
  nat_eq, string_eq, ℕ, ◌%◌, ◌^◌, Bool, List, Option, String, [], false, get_elem?, if◌then◌else◌,
  length, none, not, option_map, some, suc, zero, ◌+◌, ◌==◌, ◌||◌, ◌∷◌,
}
use razpravljalnica.Dict.{Dict, lookup, erase, contains}
use razpravljalnica.Event.{NodeInfo}
use razpravljalnica.Status.{CallError, status, plain, already_exists, invalid_argument, not_found}
use razpravljalnica.Control.State.{
  NodeEntry, ControlPlane, get_tail, append_node, find_node_index, remove_node,
}

pub record RegisterNodeResult : Type 0 where
  pub predecessor_id : String
  pub successor_id : String
  pub err : Option CallError

abbrev pub refuse : CallError → RegisterNodeResult
refuse e = record { predecessor_id = ""; successor_id = ""; err = some e }

abbrev pub between : String → String → RegisterNodeResult
between pred succ = record { predecessor_id = pred; successor_id = succ; err = none }

unfoldable pub register_node :
    (String → Bool) → NodeInfo → ControlPlane → Option (ControlPlane × RegisterNodeResult)
register_node dials info cp =
    let entry : NodeEntry = record { info = info; last_heartbeat = none } in
    if contains info.node_id cp.nodes
    then some (cp, refuse (status already_exists))
    else if info.node_id == ""
    then some (cp, refuse (status invalid_argument))
    else if not (dials info.address)
    then some (cp, refuse plain)
    else elim cp.chain [
      | [] ↦ some (append_node entry cp, between "" "")
      | _ ∷ _ ↦ elim (get_tail cp) [
        | none ↦ none
        | some tail_node ↦ some (append_node entry cp, between tail_node.info.node_id "")
      ]
    ]

-- `chain[i-1]` if `i > 0`
abbrev pub before : ℕ → List String → String
before zero ids = ""
before (suc i) ids = elim (get_elem? ids i) [ none ↦ "" | some id ↦ id ]

-- `chain[i+1]` if `i < len(chain)-1`
abbrev pub after : ℕ → List String → String
after i ids = elim (get_elem? ids (suc i)) [ none ↦ "" | some id ↦ id ]

-- The log line reads the entry of the node, and panics if it has none.
unfoldable pub unregister_node :
    NodeInfo → ControlPlane → Option (ControlPlane × RegisterNodeResult)
unregister_node info cp = elim (find_node_index info.node_id cp) [
  | none ↦ some (cp, refuse (status not_found))
  | some i ↦ elim (lookup info.node_id cp.nodes) [
    | none ↦ none
    | some _ ↦
        option_map (λ cp'. (cp', between (before i cp.chain) (after i cp.chain))) (remove_node i cp)
  ]
]

-- Membership in the set that the loop looks ids up in.
abbrev pub is_in : String → List String → Bool
is_in id [] = false
is_in id (x ∷ xs) = x == id || is_in id xs

-- The loop of `updateChain`: what stays of the chain, and the nodes without those that go.
unfoldable pub sweep :
    List String → List String → Dict String NodeEntry → List String × Dict String NodeEntry
sweep ids_to_remove [] nodes = ([], nodes)
sweep ids_to_remove (id ∷ ids) nodes =
    let gone = is_in id ids_to_remove in
    let rest = sweep ids_to_remove ids (if gone then erase id nodes else nodes) in
    if gone then rest else (id ∷ rest.0, rest.1)

unfoldable pub update_chain : List String → ControlPlane → ControlPlane
unfolding sweep
update_chain ids_to_remove cp =
    let swept = sweep ids_to_remove cp.chain cp.nodes in
    record cp { chain = swept.0; nodes = swept.1 }

-- The index is a uint64. A chain that is empty while nodes are there divides by zero.
unfoldable pub get_subscription_node :
    ControlPlane → Option (ControlPlane × (Option String × Option CallError))
get_subscription_node cp =
    if length cp.nodes == 0
    then some (cp, (none, some (status not_found)))
    else if length cp.chain == 0
    then none
    else let i = (cp.last_control_index + 1) % 2 ^ 64 % length cp.chain in
      elim (get_elem? cp.chain i) [
        | none ↦ none
        | some id ↦ some (record cp { last_control_index = i }, (some id, none))
      ]
