-- ===== src/Node/Replicate.antt =====
-- pkg/server/server_replicate.go: events go down the chain in the order of their sequence numbers.
-- The loop has fuel: it takes one entry of the queue in each round.
use razpravljalnica.Base.{nat_eq, ℕ, [], if◌then◌else◌, none, some, suc, zero, ◌++◌, ◌∷◌}
use razpravljalnica.Int64.{inc, slt}
use razpravljalnica.Dict.{lookup, insert, erase}
use razpravljalnica.Outcome.{Outcome, returns, ◌>>=◌, or_panic}
use razpravljalnica.Event.{Event}
use razpravljalnica.EventBuffer.{add_event}
use razpravljalnica.AckSync.{
  EventApplicationResult, open_ack_channel, close_ack_channel, wait_for_ack,
}
use razpravljalnica.Node.State.{Node, replicate_event as replicate_rpc}
use razpravljalnica.Node.Acks.{buffer_ack}

-- `bufferEvent`, which `handleEventReplication` and the RPC `ReplicateEvent` call
unfoldable pub buffer_event : Event → Node → Node
buffer_event event n =
    if slt event.sequence_number n.next_event_seq
    then n
    else record n { event_queue = insert event.sequence_number event n.event_queue }

-- The TAIL acknowledges the event, any other node sends it on.
unfoldable pub replicate_event : Event → Node → Outcome Node
replicate_event event n = elim n.successor [
  | none ↦ buffer_ack event.sequence_number n
  | some address ↦ returns (record n { sent = n.sent ++ replicate_rpc address event ∷ [] })
]

-- One round of `replicateNextEvents`, for the event that was found.
unfoldable pub replicate_next : Event → Node → Outcome Node
replicate_next event n = do
  buffer ← or_panic (add_event event n.event_buffer)
  replicate_event event (record n {
    event_queue = erase n.next_event_seq n.event_queue;
    next_event_seq = inc n.next_event_seq;
    event_buffer = buffer;
  })

unfoldable pub replicate_next_events : ℕ → Node → Outcome Node
replicate_next_events zero n = returns n
replicate_next_events (suc fuel) n = elim (lookup n.next_event_seq n.event_queue) [
  | none ↦ returns n
  | some event ↦ replicate_next event n >>= replicate_next_events fuel
]

-- `handleEventReplicationAndWaitForAck` up to its wait
unfoldable pub start_replication : Event → Node → Node
unfolding buffer_event
start_replication event n =
    buffer_event event (record n { ack_sync = open_ack_channel event.sequence_number n.ack_sync })

-- `handleEventReplicationAndWaitForAck` from its wait on
unfoldable pub finish_replication : Event → Node → Outcome (Node × EventApplicationResult)
finish_replication event n = do
  (acks, result) ← wait_for_ack event.sequence_number n.ack_sync
  returns (record n { ack_sync = close_ack_channel event.sequence_number acks }, result)
