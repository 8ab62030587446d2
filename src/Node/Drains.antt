-- ===== src/Node/Drains.antt =====
-- pkg/server/server_ack.go: the acknowledgment loop of any reachable node that has a predecessor
-- works its queue off.
use razpravljalnica.Base.{nat_eq, All, String, none, ◌≡◌, ◌≢◌, length}
use razpravljalnica.Dict.{lookup}
use razpravljalnica.Outcome.{returns}
use razpravljalnica.Node.State.{Node}
use razpravljalnica.Node.Acks.{process_next_acks}
use razpravljalnica.Node.Acks.Fuel.{process_next_acks-stops}
use razpravljalnica.Node.Replay.{IsServing}
use razpravljalnica.Node.Steps.{Reach, HasRoom}
use razpravljalnica.Node.Safety.{Reach-IsServing}
use razpravljalnica.Node.Growth.{IsComplete}
use razpravljalnica.Node.Progress.{CanServe, process_next_acks_returns}
use razpravljalnica.Node.Streams.Reached.{Reach-IsStreaming}

-- On a node in any state that it can reach, which has a predecessor, a log of complete events and
-- room in the log, the acknowledgment loop returns with as much fuel as its queue has entries;
-- then the next acknowledgment is not in the queue, and the node serves.
pub process_next_acks_drains :
    {name address : String} {n : Node}
    → Reach name address n
    → All IsComplete n.event_buffer.events
    → HasRoom n
    → n.predecessor ≢ none
    → (m : Node) × (process_next_acks (length n.ack_queue) n ≡ returns m)
      × (lookup m.next_ack_seq m.ack_queue ≡ none)
      × IsServing m
process_next_acks_drains {n = n} reached complete room pred =
    let can : CanServe n = record {
      serving = Reach-IsServing reached;
      channels = Reach-IsStreaming reached;
      complete = complete;
      room = room;
    } in
    let (m, done_all, after) = process_next_acks_returns (length n.ack_queue) n can pred in
    (m, done_all, process_next_acks-stops n m done_all, after.serving)
