-- ===== src/Node/Wakeups.antt =====
-- pkg/server/server_replicate.go, server_ack.go, server_neighbors.go: the two goroutines of a node,
-- and the channels that wake them. `sendChan` and `ackChan` have no buffer, and a send that would
-- wait is dropped (`select` with `default`), so it is received only by a goroutine that waits at its
-- `select` already.
pub mod Lost
use razpravljalnica.Base.{nat_eq, Bool, Option, if◌then◌else◌, none, not, some, ◌&&◌}
use razpravljalnica.Int64.{Int64, slt}
use razpravljalnica.Dict.{lookup}
use razpravljalnica.Outcome.{Outcome, returns, blocks, panics, ◌>>=◌}
use razpravljalnica.Event.{Event, NodeInfo}
use razpravljalnica.Node.State.{Node, is_tail}
use razpravljalnica.Node.Acks.{buffer_ack, process_ack}
use razpravljalnica.Node.Replicate.{buffer_event, replicate_next}
use razpravljalnica.Node.Neighbors.{set_predecessor, set_successor}

-- Where a goroutine is: in the loop over its queue; behind the loop, which has found nothing and has
-- dropped the lock, and not yet at the `select`; at the `select`; or it has returned.
pub data Phase : Type 0 where
  draining leaving waiting stopped : Phase

-- `select { case ch <- struct{}{}: default: }`
unfoldable pub notify : Phase → Phase
notify draining = draining
notify leaving = leaving
notify waiting = draining
notify stopped = stopped

pub record Running : Type 0 where
  pub node : Node
  pub event_replicator : Phase
  pub ack_processor : Phase

-- `bufferEvent`, with the wake-up
unfoldable pub buffer_event_and_wake : Event → Running → Running
unfolding notify
buffer_event_and_wake event g =
    if slt event.sequence_number g.node.next_event_seq
    then g
    else record g { node = buffer_event event g.node; event_replicator = notify g.event_replicator }

-- `bufferAck`, with the wake-up
unfoldable pub buffer_ack_and_wake : Int64 → Running → Outcome Running
unfolding notify
buffer_ack_and_wake seq g =
    if slt seq g.node.next_ack_seq
    then returns g
    else buffer_ack seq g.node >>= λ n.
        returns (record g { node = n; ack_processor = notify g.ack_processor })

-- The acknowledgment processor after `replicateEvent`: the TAIL acknowledges the event itself.
abbrev pub woken : Event → Running → Phase
woken event g =
    if is_tail g.node && not (slt event.sequence_number g.node.next_ack_seq)
    then notify g.ack_processor
    else g.ack_processor

-- One step of `eventReplicator`: a round of `replicateNextEvents`, its end, or the `select`, at which
-- it blocks until it is woken.
unfoldable pub replicator_step : Running → Outcome Running
unfolding notify is_tail
replicator_step g = elim g.event_replicator [
  | stopped ↦ blocks
  | waiting ↦ blocks
  | leaving ↦ returns (record g { event_replicator = waiting })
  | draining ↦ elim (lookup g.node.next_event_seq g.node.event_queue) [
    | none ↦ returns (record g { event_replicator = leaving })
    | some event ↦ replicate_next event g.node >>= λ n.
        returns (record g { node = n; ack_processor = woken event g })
  ]
]

-- One step of `ackProcessor`
unfoldable pub ack_processor_step : Running → Outcome Running
ack_processor_step g = elim g.ack_processor [
  | stopped ↦ blocks
  | waiting ↦ blocks
  | leaving ↦ returns (record g { ack_processor = waiting })
  | draining ↦ elim (lookup g.node.next_ack_seq g.node.ack_queue) [
    | none ↦ returns (record g { ack_processor = leaving })
    | some event ↦ process_ack event g.node >>= λ n. returns (record g { node = n })
  ]
]

-- A goroutine that is in its loop is waited for; at its `select` it sees that its channel is closed.
-- One that has returned has its channel closed already, and a second close panics.
abbrev stop : Phase → Outcome Phase
stop draining = blocks
stop leaving = returns stopped
stop waiting = returns stopped
stop stopped = panics

-- The goroutine of `SetSuccessor`: the replicator is stopped, and started again after the sync.
unfoldable pub set_successor_and_restart :
    Option NodeInfo → Option (Int64 × Int64) → Running → Outcome Running
set_successor_and_restart succ reply g = do
  _ ← stop g.event_replicator
  n ← set_successor succ reply g.node
  returns (record g { node = n; event_replicator = draining })

-- `SetPredecessor`: the acknowledgment processor is stopped, and started again.
unfoldable pub set_predecessor_and_restart : Option NodeInfo → Running → Outcome Running
set_predecessor_and_restart pred g = do
  _ ← stop g.ack_processor
  returns (record g { node = set_predecessor pred g.node; ack_processor = draining })
