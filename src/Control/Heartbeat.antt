-- ===== src/Control/Heartbeat.antt =====
-- pkg/control/control_heartbeat.go: heartbeats, the nodes that have missed theirs, and the calls that
-- close the gaps that they leave. `now` is the time.
use razpravljalnica.Base.{
  nat_eq, string_eq, ℕ, Bool, List, Option, String, [], false, if◌then◌else◌, is_some, ltb, none,
  not, option_map, some, true, ◌&&◌, ◌++◌, ◌+◌, ◌||◌, ◌∷◌,
}
use razpravljalnica.Dict.{Dict, lookup, insert}
use razpravljalnica.Event.{NodeInfo}
use razpravljalnica.Status.{Code, not_found}
use razpravljalnica.Control.State.{NodeEntry, ControlPlane, heartbeat_timeout, get_head}
use razpravljalnica.Control.Nodes.{is_in}

-- `Heartbeat`, past the check that this is the leader
unfoldable pub heartbeat : ℕ → NodeInfo → ControlPlane → ControlPlane × Option Code
heartbeat now info cp = elim (lookup info.node_id cp.nodes) [
  | none ↦ (cp, some not_found)
  | some entry ↦ (
    record cp { nodes = insert info.node_id (record entry { last_heartbeat = some now }) cp.nodes },
    none,
  )
]

-- `now.Sub(last) > timeout`; a difference is negative where the clock has gone back.
abbrev pub is_late : ℕ → ℕ → Bool
is_late now last = ltb (last + heartbeat_timeout) now

-- The loop of `identifyDeadNodes`; a node of the chain with no entry is a nil pointer. A node that
-- has sent no heartbeat yet gets its first time here.
unfoldable pub find_dead :
    ℕ → List String → Dict String NodeEntry → Option (Dict String NodeEntry × List String)
find_dead now [] nodes = some (nodes, [])
find_dead now (id ∷ ids) nodes = elim (lookup id nodes) [
  | none ↦ none
  | some entry ↦ elim entry.last_heartbeat [
    | none ↦ find_dead now ids (insert id (record entry { last_heartbeat = some now }) nodes)
    | some last ↦
        option_map
          (λ (r : Dict String NodeEntry × List String).
            (r.0, if is_late now last then id ∷ r.1 else r.1))
          (find_dead now ids nodes)
  ]
]

-- The dead, and a copy of the chain.
unfoldable pub identify_dead_nodes :
    ℕ → ControlPlane → Option (ControlPlane × (List String × List String))
identify_dead_nodes now cp =
    option_map
      (λ (r : Dict String NodeEntry × List String). (record cp { nodes = r.0 }, (r.1, cp.chain)))
      (find_dead now cp.chain cp.nodes)

-- A call of `reconnectNeighbors`: the two nodes that become neighbors, or none at an end.
pub record Reconnect : Type 0 where
  pub pred : Option String
  pub succ : Option String

abbrev pub link : Option String → Option String → Reconnect
link p q = record { pred = p; succ = q }

-- The walk of `reconnectChain` along the old chain, and the case after it in which the TAIL died.
-- `alive id` says that the node was not removed and is registered.
unfoldable pub walk : (String → Bool) → Option String → Bool → List String → List Reconnect
walk alive last_alive gap [] = if gap && is_some last_alive then link last_alive none ∷ [] else []
walk alive last_alive gap (id ∷ ids) = elim (alive id) [
  | false ↦ walk alive last_alive true ids
  | true ↦ elim (gap && is_some last_alive) [
    | true ↦ link last_alive (some id) ∷ walk alive (some id) false ids
    | false ↦ walk alive (some id) gap ids
  ]
]

abbrev pub is_alive : List String → ControlPlane → String → Bool
is_alive removed cp id = not (is_in id removed || not (is_some (lookup id cp.nodes)))

abbrev pub head_died : List String → List String → Bool
head_died [] removed = false
head_died (id ∷ _) removed = is_in id removed

abbrev pub is_empty : List String → Bool
is_empty [] = true
is_empty (_ ∷ _) = false

-- `reconnectChain`, after the removal; each entry of the result is started in a goroutine.
unfoldable pub reconnect_chain : List String → List String → ControlPlane → List Reconnect
reconnect_chain old_chain removed cp =
    walk (is_alive removed cp) none false old_chain
    ++ (if head_died old_chain removed && not (is_empty cp.chain)
        then link none (option_map (λ entry. entry.info.node_id) (get_head cp)) ∷ []
        else [])
    ++ (if is_empty cp.chain then link none none ∷ [] else [])

-- A call that a node receives from `reconnectNeighbors`.
pub data NeighborCall : Type 0 where
  set_predecessor : (node : String) → (pred : Option String) → NeighborCall
  set_successor : (node : String) → (succ : Option String) → NeighborCall

unfoldable pub reconnect_neighbors : Reconnect → List NeighborCall
reconnect_neighbors r = elim r.pred [
  | some p ↦ elim r.succ [
    | some q ↦ set_predecessor q (some p) ∷ set_successor p (some q) ∷ []
    | none ↦ set_successor p none ∷ []
  ]
  | none ↦ elim r.succ [ some q ↦ set_predecessor q none ∷ [] | none ↦ [] ]
]
