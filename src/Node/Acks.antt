-- ===== src/Node/Acks.antt =====
-- pkg/server/server_ack.go: acknowledgments are taken in the order of their sequence numbers; each
-- applies its event and goes on to the predecessor, or to the waiting client at the HEAD. The loop
-- has fuel: it takes one entry of the queue in each round, so the size of the queue is enough. The
-- lock that the loop drops between rounds lets other calls run there; a step here is one round or
-- a loop that no other call enters.
pub mod Fuel
use razpravljalnica.Base.{nat_eq, ℕ, [], if◌then◌else◌, none, some, suc, zero, ◌++◌, ◌∷◌}
use razpravljalnica.Int64.{Int64, inc, slt}
use razpravljalnica.Dict.{lookup, insert, erase}
use razpravljalnica.Outcome.{Outcome, returns, ◌>>=◌, or_panic}
use razpravljalnica.Event.{Event}
use razpravljalnica.EventBuffer.{get_event, acknowledge_event as acknowledge_in_buffer}
use razpravljalnica.AckSync.{signal_ack_if_waiting, EventApplicationResult}
use razpravljalnica.Node.State.{Node, acknowledge_event as acknowledge_rpc, is_head}
use razpravljalnica.Node.Apply.{apply_event}

-- `bufferAck`, which `handleEventAcknowledgment` and the RPC `AcknowledgeEvent` call
unfoldable pub buffer_ack : Int64 → Node → Outcome Node
buffer_ack seq n =
    if slt seq n.next_ack_seq
    then returns n
    else or_panic (get_event seq n.event_buffer) >>= λ event.
        returns (record n { ack_queue = insert event.sequence_number event n.ack_queue })

-- After the event is applied, the HEAD signals its client and any other node its predecessor.
unfoldable pub pass_on_ack : Event → EventApplicationResult → Node → Outcome Node
unfolding is_head
pass_on_ack event result n = elim n.predecessor [
  | none ↦ do
    acks ← signal_ack_if_waiting event.sequence_number result n.ack_sync
    returns (record n { ack_sync = acks })
  | some address ↦
      returns (record n { sent = n.sent ++ acknowledge_rpc address event.sequence_number ∷ [] })
]

unfoldable pub acknowledge_event : Event → Node → Outcome Node
acknowledge_event event n = do (n', result) ← apply_event event n; pass_on_ack event result n'

-- One round of `processNextAcks`, for the event that was found.
unfoldable pub process_ack : Event → Node → Outcome Node
process_ack event n = do
  let taken : Node = record n {
    ack_queue = erase n.next_ack_seq n.ack_queue;
    next_ack_seq = inc n.next_ack_seq;
  }
  (buffer, _) ← or_panic (acknowledge_in_buffer event.sequence_number taken.event_buffer)
  acknowledge_event event (record taken { event_buffer = buffer })

unfoldable pub process_next_acks : ℕ → Node → Outcome Node
process_next_acks zero n = returns n
process_next_acks (suc fuel) n = elim (lookup n.next_ack_seq n.ack_queue) [
  | none ↦ returns n
  | some event ↦ process_ack event n >>= process_next_acks fuel
]
