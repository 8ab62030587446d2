-- ===== src/Node/Joins.antt =====
-- pkg/server/server.go, server_heartbeat.go: what a data server asks of the control plane: it
-- registers when it starts, sends heartbeats, and unregisters when it shuts down. The remote calls
-- are parameters, which act on `W`.
use razpravljalnica.Base.{
  Bool, List, Option, String, inl, inr, none, some, true, ◌++◌, ◌∷◌, ◌≡◌, ◌⊎◌, refl, ap,
}
use razpravljalnica.Outcome.{Outcome, returns, panics}
use razpravljalnica.Event.{NodeInfo}
use razpravljalnica.Status.{CallError}
use razpravljalnica.Node.State.{Node, set_predecessor_connection}
use razpravljalnica.Client.{try_control_plane_request}
use razpravljalnica.Client.Leader.{Passes, try_request-finds_leader}

pub record NeighborsInfo : Type 0 where
  pub predecessor : Option NodeInfo
  pub successor : Option NodeInfo

-- The call of `setPredecessor`, which is made only for a predecessor that is there.
abbrev pub placed : Option NodeInfo → Node → Node
placed none n = n
placed (some pred) n = set_predecessor_connection (some pred) n

module _ {W : Type 0} (dials : String → Bool) where
  -- `connectToControlPlane` of a node that starts. It panics if no server registers the node, and if
  -- a successor is named.
  unfoldable pub connect_to_control_plane :
      (String → W → W × (CallError ⊎ NeighborsInfo))
      → List String
      → Node
      → W
      → Outcome (W × (Option String × Node))
  connect_to_control_plane register addrs n w =
      let (w', (conn, answer)) = try_control_plane_request dials register none addrs w in
      elim answer [
        | inl e ↦ panics
        | inr neighbors ↦ elim neighbors.successor [
          | some _ ↦ panics
          | none ↦ returns (w', (conn, placed neighbors.predecessor n))
        ]
      ]

  -- `sendHeartbeat`; the pair has the connection to the control plane afterwards.
  unfoldable pub send_heartbeat :
      (String → W → W × (CallError ⊎ Unit {0}))
      → Option String
      → List String
      → W
      → W × (Option String × Option CallError)
  send_heartbeat heartbeat conn addrs w =
      let (w', (conn', answer)) = try_control_plane_request dials heartbeat conn addrs w in
      (w', (conn', elim answer [ inl e ↦ some e | inr _ ↦ none ]))

  -- `Shutdown`; an error is only logged.
  unfoldable pub shutdown :
      (String → W → W × (CallError ⊎ Unit {0})) → Option String → List String → W → W
  shutdown unregister conn addrs w = (try_control_plane_request dials unregister conn addrs w).0

  -- Where a leader is reached after servers that pass, and names no successor, a node that starts
  -- has the predecessor that the leader names and is connected to that leader.
  pub connect_to_control_plane_lem :
      (register : String → W → W × (CallError ⊎ NeighborsInfo)) (before after : List String)
      (leader : String) (n : Node) (pred : Option NodeInfo) {w v w' : W}
      → Passes dials register before w v
      → dials leader ≡ true
      → register leader v ≡ (w', inr (record { predecessor = pred; successor = none }))
      → connect_to_control_plane register (before ++ leader ∷ after) n w
        ≡ returns (w', (some leader, placed pred n))
  unfolding connect_to_control_plane
  connect_to_control_plane_lem register before after leader n pred passes dial answers =
      let found =
        (try_request-finds_leader dials register before after leader
          (record { predecessor = pred; successor = none }) passes dial answers).0 in
      rw
        (
          connect_to_control_plane,
          ap (λ r. r.1.1) found,
          ap (λ r. r.1.0) found,
          ap (λ r. r.0) found,
        )
        refl
