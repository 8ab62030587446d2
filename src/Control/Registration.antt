-- ===== src/Control/Registration.antt =====
-- pkg/control/control_grpc.go: the call `RegisterNode` as a whole, and what it does to a chain.
use text.Mathlib.TextEquality.{eq_iff}
use razpravljalnica.Base.{
  nat_eq, string_eq, Bool, List, Option, String, [], arith, false, inl, inr, none, option_map, refl,
  some, true, ◌++◌, ◌==◌, ◌∷◌, ◌≡◌, ◌⊎◌, Option-cases, subst, sym, ap,
}
use razpravljalnica.Dict.{lookup, lookup-insert}
use razpravljalnica.Outcome.{Outcome, returns, panics}
use razpravljalnica.Event.{NodeInfo}
use razpravljalnica.Status.{CallError}
use razpravljalnica.Control.State.{
  NodeEntry, ControlPlane, get_node, get_tail, append_node, last_of,
}
use razpravljalnica.Control.Nodes.{register_node, between}
use razpravljalnica.Control.Heartbeat.{NeighborCall, set_successor}
use razpravljalnica.Control.Fsm.{op_register, registered, updated, subscribed, apply}
use razpravljalnica.Control.Grpc.{
  refused, applied, crashed, submit, ensure_leader, register_node_reply,
}
use razpravljalnica.Control.Commands.{get_tail-some}
use razpravljalnica.Control.Chain.{IsChain, append_node-IsChain}

-- `RegisterNode`; no other command is applied between the two parts. A node that is refused gets the
-- error, another one its predecessor. A response of another type panics.
unfoldable pub register_node_rpc :
    (String → Bool)
    → Bool
    → Option CallError
    → NodeInfo
    → ControlPlane
    → Outcome (ControlPlane × (List NeighborCall × (CallError ⊎ Option NodeInfo)))
unfolding submit register_node_reply
register_node_rpc dials leader raft_err info cp =
    elim (submit dials leader raft_err (op_register info) cp) [
      | refused e ↦ returns (cp, ([], inl e))
      | crashed ↦ panics
      | applied cp' response ↦ elim response [
        | updated ↦ panics
        | subscribed _ ↦ panics
        | registered result ↦
            let (calls, (pred, err)) = register_node_reply result info cp' in
            returns (cp', (calls, elim err [ some e ↦ inl e | none ↦ inr pred ]))
      ]
    ]

abbrev told_successor : String → Option NodeEntry → List NeighborCall
told_successor node_id none = []
told_successor node_id (some tail) = set_successor tail.info.node_id (some node_id) ∷ []

-- The predecessor that a registration names.
abbrev tail_id : Option NodeEntry → String
tail_id none = ""
tail_id (some t) = t.info.node_id

abbrev info_of : NodeEntry → NodeInfo
info_of e = e.info

abbrev new_entry : NodeInfo → NodeEntry
new_entry info = record { info = info; last_heartbeat = none }

get_tail-none : (cp : ControlPlane) → cp.chain ≡ [] → get_tail cp ≡ none
unfolding get_tail
get_tail-none cp e = ground arith

get_tail-registered :
    (cp : ControlPlane) (t : NodeEntry)
    → IsChain cp
    → get_tail cp ≡ some t
    → lookup t.info.node_id cp.nodes ≡ some t
unfolding get_tail
get_tail-registered cp t v found = by_chain cp.chain refl
  where
    by_chain : (chain : List String) → cp.chain ≡ chain → lookup t.info.node_id cp.nodes ≡ some t
    by_chain [] e = absurd (ground arith)
    by_chain (x ∷ xs) e =
        let at : lookup (last_of x xs) cp.nodes ≡ some t = ground arith in
        subst (λ i. lookup i cp.nodes ≡ some t) (sym (v.ids (last_of x xs) t at)) at

append_node-chain :
    (entry : NodeEntry) (cp : ControlPlane)
    → (append_node entry cp).chain ≡ cp.chain ++ entry.info.node_id ∷ []
unfolding append_node
append_node-chain entry cp = refl

-- The command adds the node behind the TAIL, which it names.
registers :
    (dials : String → Bool) (info : NodeInfo) (cp : ControlPlane)
    → IsChain cp
    → lookup info.node_id cp.nodes ≡ none
    → (info.node_id == "") ≡ false
    → dials info.address ≡ true
    → register_node dials info cp
      ≡ some (append_node (new_entry info) cp, between (tail_id (get_tail cp)) "")
unfolding register_node
registers dials info cp v new named dial = by_chain cp.chain refl
  where
    by_chain :
        (chain : List String)
        → cp.chain ≡ chain
        → register_node dials info cp
          ≡ some (append_node (new_entry info) cp, between (tail_id (get_tail cp)) "")
    by_chain [] e = ground (arith, get_tail-none cp e)
    by_chain (x ∷ xs) e = let (t, found, own) = get_tail-some cp x xs v e in ground arith

-- The reply reads the old TAIL from the state behind the command.
replies :
    (info : NodeInfo) (cp : ControlPlane)
    → IsChain cp
    → lookup info.node_id cp.nodes ≡ none
    → (info.node_id == "") ≡ false
    → register_node_reply
        (between (tail_id (get_tail cp)) "")
        info
        (append_node (new_entry info) cp)
      ≡ (told_successor info.node_id (get_tail cp), (option_map info_of (get_tail cp), none))
unfolding register_node_reply get_node append_node
replies info cp v new named = elim (Option-cases (get_tail cp)) [
  | inl none_there ↦ rw none_there (
      ground
        (arith, lookup-insert info.node_id "" (new_entry info) cp.nodes, v.registered "", v.named))
  | inr (t, found) ↦ rw found (
      ground (
        arith,
        lookup-insert info.node_id t.info.node_id (new_entry info) cp.nodes,
        eq_iff info.node_id t.info.node_id,
        get_tail-registered cp t v found,
      ))
]

-- At the leader, with Raft working and on a chain that lists the registered nodes, each once, the
-- registration of a new node that has a name and an address that can be dialled puts it at the
-- end of the chain, tells only the old TAIL, if there is one, of its new successor, and answers
-- with the old TAIL as the predecessor; the chain then lists the registered nodes, each once.
pub register_node_rpc_lem :
    (dials : String → Bool) (info : NodeInfo) (cp : ControlPlane)
    → IsChain cp
    → lookup info.node_id cp.nodes ≡ none
    → (info.node_id == "") ≡ false
    → dials info.address ≡ true
    → (cp' : ControlPlane) × (register_node_rpc dials true none info cp
        ≡ returns (
          cp',
          (told_successor info.node_id (get_tail cp), inr (option_map info_of (get_tail cp))),
        ))
      × (cp'.chain ≡ cp.chain ++ info.node_id ∷ [])
      × IsChain cp'
unfolding register_node_rpc ensure_leader apply
register_node_rpc_lem dials info cp v new named dial =
    let reply = replies info cp v new named in
    (
      append_node (new_entry info) cp,
      rw
          (
            register_node_rpc,
            submit,
            apply,
            registers dials info cp v new named dial,
            ap (λ r. r.1.1) reply,
            ap (λ r. r.1.0) reply,
            ap (λ r. r.0) reply,
          )
          refl,
      append_node-chain (new_entry info) cp,
      append_node-IsChain (new_entry info) cp v new named,
    )
