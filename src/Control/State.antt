-- ===== src/Control/State.antt =====
-- pkg/control/control.go: the registered nodes and the chain, HEAD first. The gRPC client of a node
-- is its address. `none` is a panic.
use razpravljalnica.Base.{
  nat_eq, string_eq, ℕ, List, Option, String, [], drop, get_elem?, if◌then◌else◌, none, option_map,
  some, suc, take, ◌++◌, ◌==◌, ◌∷◌,
}
use razpravljalnica.Dict.{Dict, lookup, insert, erase}
use razpravljalnica.Event.{NodeInfo}

-- `NodeInfo` of this package; a time is a number of nanoseconds.
pub record NodeEntry : Type 0 where
  pub info : NodeInfo
  pub last_heartbeat : Option ℕ

pub record ControlPlane : Type 0 where
  pub nodes : Dict String NodeEntry
  pub chain : List String
  pub last_control_index : ℕ

-- 7 seconds
abbrev pub heartbeat_timeout : ℕ
heartbeat_timeout = 7000000000

unfoldable pub new_control_plane : ControlPlane
new_control_plane = record { nodes = []; chain = []; last_control_index = 0 }

unfoldable pub get_node : String → ControlPlane → Option NodeEntry
get_node node_id cp = lookup node_id cp.nodes

-- `chain[len(chain)-1]` of a chain that is not empty
unfoldable pub last_of : String → List String → String
last_of x [] = x
last_of x (y ∷ ys) = last_of y ys

unfoldable pub get_tail : ControlPlane → Option NodeEntry
get_tail cp = elim cp.chain [ [] ↦ none | x ∷ xs ↦ lookup (last_of x xs) cp.nodes ]

unfoldable pub get_head : ControlPlane → Option NodeEntry
get_head cp = elim cp.chain [ [] ↦ none | head_id ∷ _ ↦ lookup head_id cp.nodes ]

unfoldable pub append_node : NodeEntry → ControlPlane → ControlPlane
append_node entry cp = record cp {
  chain = cp.chain ++ entry.info.node_id ∷ [];
  nodes = insert entry.info.node_id entry cp.nodes;
}

-- The first index of an id; `none` is -1.
unfoldable pub find_index : String → List String → Option ℕ
find_index node_id [] = none
find_index node_id (id ∷ ids) =
    let rest = option_map suc (find_index node_id ids) in if id == node_id then some 0 else rest

unfoldable pub find_node_index : String → ControlPlane → Option ℕ
unfolding find_index
find_node_index node_id cp = find_index node_id cp.chain

-- `append(chain[:i], chain[i+1:]...)`
unfoldable pub remove_at : ℕ → List String → List String
remove_at i ids = take i ids ++ drop (suc i) ids

-- An index out of range panics.
unfoldable pub remove_node : ℕ → ControlPlane → Option ControlPlane
unfolding remove_at
remove_node i cp = elim (get_elem? cp.chain i) [
  | none ↦ none
  | some node_id ↦ some (record cp { chain = remove_at i cp.chain; nodes = erase node_id cp.nodes })
]
