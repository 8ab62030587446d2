-- ===== src/Control.antt =====
-- pkg/control: the control plane, which keeps the chain of data servers and tells them of their
-- neighbors.
pub mod State
pub mod Nodes
pub mod Heartbeat
pub mod Fsm
pub mod Grpc
pub mod Chain
pub mod Commands
pub mod Rotation
pub mod Restore
pub mod Reconnect
pub mod Monitor
pub mod Registration
pub mod Stats
