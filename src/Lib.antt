-- ===== src/Lib.antt =====
-- razpravljalnica: a message board that is replicated over a chain of data servers. Clients write
-- at the HEAD of the chain and read at the TAIL; a control plane, itself replicated by Raft, keeps
-- the list of servers, watches their heartbeats and tells each server of its neighbors.
--
-- How the parts interact. A write handler at the HEAD (pkg/server/server_messages.go,
-- server_user.go, server_topics.go) makes an event in the log (event_buffer.go), opens a channel for
-- its result (ack_synchronization.go) and puts the event into a queue. The replicator
-- (server_replicate.go) takes events off the queue in the order of their sequence numbers and sends
-- them to the successor; the TAIL acknowledges them instead. The acknowledgment processor
-- (server_ack.go) takes acknowledgments in the same order, confirms the event in the log, applies it
-- to the storage (pkg/storage), tells the subscribers (subscription_manager.go), and passes the
-- acknowledgment to the predecessor, at the HEAD to the client that waits. When a neighbor changes,
-- the node brings the new one up to date (server_sync.go). The control plane (pkg/control) runs
-- commands in a state machine that Raft replicates.
--
-- Which file models which part. Function names are the source's, in snake case.
--   Storage: pkg/storage. A call returns its new state and a `Reply`, the pair of value and error.
--     `Storage.Reads` has the loops over message ids.
--   Event, Status, Outcome: the messages of proto/razpravljalnica.proto, the codes of errors, and
--     how a step of a goroutine ends (it returns, it waits, it panics).
--   EventBuffer, AckSync, Subscriptions: the three parts of a node that keep state of their own.
--   Node: pkg/server. `Node.State` is the record; `Writes`, `Replicate`, `Acks`, `Apply`, `Reads`
--     and `Neighbors` are its operations; `Steps` puts them together as one step relation, in which
--     the environment chooses the step and its arguments. `Replay` has the specification, a
--     replicated state machine: what an event does to a storage, and the replay of a log.
--     `Wakeups` has the two goroutines with the channels that wake them, `Joins` what a node asks of
--     the control plane, `Stats` the figures that it shows.
--   Chain: several nodes of pkg/server with the calls between them. Nodes may fail at any time, and
--     none joins. A call is delivered, any number of times and in any order, while its sender is
--     alive; the control plane tells a node of a neighbor that the failures before it have made one.
--   Control: pkg/control. `Nodes` has the commands of the replicated state machine, `Fsm` its
--     `Apply`, `Snapshot` and `Restore`, `Heartbeat` and `Monitor` the monitor, `Grpc` and
--     `Registration` the calls of servers, `Stats` the figures that are shown.
--   Client: pkg/client/shared, pkg/client/client.go and pkg/server/server_control_plane.go, the
--     requests to a control plane of several servers, with the remote calls as parameters.
--   Gui: pkg/client/gui, what the terminal client keeps of users, topics and messages. `Messages`,
--     `Topics` and `Users` have the handlers, each split at its remote call, `Stream` the events of a
--     subscription, `Selection` the message that is selected, `View` what is shown.
--   Cli: pkg/client/cli, from a typed line to the request that it asks for.
--   Base, Dict, Int64: shared names, Go's maps as association lists, and Go's int64 as the bit
--     pattern of a value, with its signed order and its wrap-around.
--   Tests: runs on concrete inputs.
--
-- Concurrency. Each method of a part that holds its lock is one step. A node's goroutines and its
-- handlers are steps of one relation in any order, so every interleaving of whole steps is covered;
-- a round of a loop that drops the lock between rounds is a step of its own. A call to another node
-- is recorded in the list `sent`, whose delivery is up to the environment: it may be lost, repeated
-- or late.
--
-- Fuel. The loops over message ids get as many rounds as lie between the first id and the bound, the
-- loops over queues as many as the queue has entries, and the loops over sequence numbers as many as
-- there are numbers; more fuel gives the same result where a theorem below says so.
--
-- Not modelled: the screens of the servers (pkg/server/gui, pkg/control/gui), the widgets of the
-- terminal client, what the command line client prints, its loops and the stream of its
-- subscriptions, the commands (cmd), log messages, generated code (pkg/pb), gRPC connections beyond
-- the address they lead to, timers, and Raft itself, which is taken to apply the same commands in
-- the same order everywhere. The chain is composed without nodes that join it. A write handler's
-- event in the log and in the queue is one step. The texts of errors are left out. Go's maps are
-- iterated in any order; the model's order is one of them. Stored messages are values: that
-- `GetMessagesWithLimit` returns pointers to the messages that are stored is left out.
pub mod Base
pub mod Dict
pub mod Int64
pub mod Storage
pub mod Event
pub mod Status
pub mod Outcome
pub mod EventBuffer
pub mod AckSync
pub mod Subscriptions
pub mod Node
pub mod Chain
pub mod Control
pub mod Client
pub mod Gui
pub mod Cli
pub mod Tests
