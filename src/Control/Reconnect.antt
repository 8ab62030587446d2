-- ===== src/Control/Reconnect.antt =====
-- pkg/control/control_heartbeat.go, `reconnectChain` and `reconnectNeighbors`: what the calls of a
-- reconnection tell a node, and how it settles.
pub mod Walk
pub mod Successors
pub mod Predecessors
pub mod Heads
use razpravljalnica.Base.{
  nat_eq, string_eq, Bool, List, Option, String, [], if◌then◌else◌, none, some, ◌++◌, ◌==◌, ◌∷◌,
}
use razpravljalnica.Control.Heartbeat.{
  Reconnect, NeighborCall, set_predecessor, set_successor, reconnect_neighbors,
}

-- The nodes of a chain that are alive.
abbrev pub keep : (String → Bool) → List String → List String
keep alive [] = []
keep alive (id ∷ ids) = if alive id then id ∷ keep alive ids else keep alive ids

abbrev pub first_of : List String → Option String
first_of [] = none
first_of (id ∷ _) = some id

-- The node after `k` in a chain.
abbrev pub succ_in : String → List String → Option String
succ_in k [] = none
succ_in k (id ∷ ids) = if id == k then first_of ids else succ_in k ids

-- The calls of all reconnections.
abbrev pub calls : List Reconnect → List NeighborCall
calls [] = []
calls (r ∷ rs) = reconnect_neighbors r ++ calls rs

-- Every successor that node `k` is told.
abbrev pub told : String → List NeighborCall → List (Option String)
told k [] = []
told k (set_successor n v ∷ cs) = if n == k then v ∷ told k cs else told k cs
told k (set_predecessor n v ∷ cs) = told k cs

-- The node before `k` in a chain, where `p` stands before the chain.
abbrev pub pred_in : Option String → String → List String → Option String
pred_in p k [] = none
pred_in p k (id ∷ ids) = if id == k then p else pred_in (some id) k ids

-- Every predecessor that node `k` is told.
abbrev pub told_pred : String → List NeighborCall → List (Option String)
told_pred k [] = []
told_pred k (set_successor n v ∷ cs) = told_pred k cs
told_pred k (set_predecessor n v ∷ cs) = if n == k then v ∷ told_pred k cs else told_pred k cs

-- The neighbor after the calls, in whatever order they arrive: the old one if there was no call,
-- the one that the only call gives, and none that is certain if there were several.
abbrev pub settled : List (Option String) → Option String → Option (Option String)
settled [] old = some old
settled (v ∷ []) old = some v
settled (_ ∷ _ ∷ _) old = none
