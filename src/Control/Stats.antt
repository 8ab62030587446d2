-- ===== src/Control/Stats.antt =====
-- pkg/control/control.go, `GetStats`: the figures of a server of the control plane. Its own names
-- and what Raft says are arguments.
use razpravljalnica.Base.{
  string_eq, nat_eq, ℕ, List, Option, String, [], if◌then◌else◌, none, some, ◌∷◌, ◌==◌, length, suc,
  ◌-◌,
}
use razpravljalnica.Dict.{lookup}
use razpravljalnica.Control.State.{ControlPlane}
use razpravljalnica.Node.Stats.{Role, single, head, tail, middle}

pub record ChainNodeInfo : Type 0 where
  pub node_id : String
  pub address : String
  pub role : Role

-- A server by its id and its two addresses
pub record Names : Type 0 where
  pub node_id : String
  pub grpc_addr : String
  pub raft_addr : String

pub record ControlStatsSnapshot : Type 0 where
  pub names : Names
  pub raft_state : String
  pub raft_leader : String
  pub chain_nodes : List ChainNodeInfo
  pub registered_cps : ℕ
  pub total_nodes : ℕ

-- The role of place `i` of a chain of `count` nodes
abbrev pub role_at : ℕ → ℕ → Role
role_at count i =
    if count == 1 then single else if i == 0 then head else if i == count - 1 then tail else middle

-- The nodes from place `i` on; one that is not registered is passed over.
unfoldable pub chain_nodes_from : ℕ → List String → ControlPlane → List ChainNodeInfo
chain_nodes_from i [] cp = []
chain_nodes_from i (id ∷ ids) cp =
    let later = chain_nodes_from (suc i) ids cp in
    elim (lookup id cp.nodes) [
      | none ↦ later
      | some entry ↦
          record { node_id = id; address = entry.info.address; role = role_at (length cp.chain) i }
          ∷ later
    ]

-- There is no Raft before it is started.
unfoldable pub get_stats : Names → Option (String × String) → ControlPlane → ControlStatsSnapshot
unfolding chain_nodes_from
get_stats names raft cp = record {
  names = names;
  raft_state = elim raft [ none ↦ "Initializing" | some r ↦ r.0 ];
  raft_leader = elim raft [ none ↦ "" | some r ↦ r.1 ];
  chain_nodes = chain_nodes_from 0 cp.chain cp;
  registered_cps = 3;
  total_nodes = length cp.chain;
}
