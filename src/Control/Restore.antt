-- ===== src/Control/Restore.antt =====
-- pkg/control/control_fsm.go, `Snapshot` and `Restore`: a follower that has restored a snapshot
-- answers and changes as the state that the snapshot was taken of.
use razpravljalnica.Base.{nat_eq, string_eq, Option, option_map}
use razpravljalnica.Dict.{Dict, map_values}
use razpravljalnica.Event.{NodeInfo}
use razpravljalnica.Control.State.{NodeEntry, ControlPlane}
use razpravljalnica.Control.Fsm.{RaftSnapshot, snapshot, revive}

-- What the other members of the cluster can tell of a step: the state but its heartbeats, and the
-- response.
abbrev pub observe {ℓ} : {A : Type ℓ} → Option (ControlPlane × A) → Option (RaftSnapshot × A)
observe = option_map (λ r. (snapshot r.0, r.1))

abbrev info_of : NodeEntry → NodeInfo
info_of e = e.info

abbrev forget : NodeEntry → NodeEntry
forget e = revive e.info

-- The state without its heartbeats.
abbrev bare : ControlPlane → ControlPlane
bare cp = record cp { nodes = map_values forget cp.nodes }
