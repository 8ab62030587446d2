-- ===== src/Node/Neighbors.antt =====
-- pkg/server/server_neighbors.go, server_sync.go: a node gets a new neighbor. The goroutine that
-- serves the neighbor is stopped before and started again after; what it then does is a step of its
-- own (`process_next_acks`, `replicate_next_events`). The loops over sequence numbers have as much
-- fuel as there are numbers.
use razpravljalnica.Base.{nat_eq, ℕ, Option, if◌then◌else◌, none, some, suc, zero, ◌+◌, ◌-◌}
use razpravljalnica.Int64.{Int64, inc, sle, bias}
use razpravljalnica.Outcome.{Outcome, returns, ◌>>=◌, or_panic}
use razpravljalnica.Event.{NodeInfo}
use razpravljalnica.EventBuffer.{get_event, get_last_applied, get_last_received}
use razpravljalnica.Node.State.{Node, set_predecessor_connection, set_successor_connection}
use razpravljalnica.Node.Acks.{buffer_ack}
use razpravljalnica.Node.Replicate.{replicate_event}

-- `for seq := first; seq <= last; seq++ { n.handleEventAcknowledgment(seq) }`
unfoldable pub acknowledge_range : ℕ → Int64 → Int64 → Node → Outcome Node
acknowledge_range zero seq last n = returns n
acknowledge_range (suc fuel) seq last n =
    let rest = buffer_ack seq n >>= acknowledge_range fuel (inc seq) last in
    if sle seq last then rest else returns n

-- `for seq := first; seq <= last; seq++ { n.handleSyncEventReplication(n.eventBuffer.GetEvent(seq)) }`
unfoldable pub resend_range : ℕ → Int64 → Int64 → Node → Outcome Node
resend_range zero seq last n = returns n
resend_range (suc fuel) seq last n =
    let rest = do
      event ← or_panic (get_event seq n.event_buffer)
      n' ← replicate_event event n
      resend_range fuel (inc seq) last n'
    in if sle seq last then rest else returns n

-- The numbers from `first` to `last`.
abbrev pub span : Int64 → Int64 → ℕ
span first last = bias last + 1 - bias first

-- `syncWithSuccessor`; the argument is the answer of `GetLastSequenceNumbers`, received and
-- acknowledged, or `none` if the call fails.
unfoldable pub sync_with_successor : Option (Int64 × Int64) → Node → Outcome Node
sync_with_successor none n = returns n
sync_with_successor (some (succ_received, succ_acked)) n =
    let first = inc (get_last_applied n.event_buffer) in
    let received = get_last_received n.event_buffer in
    let missing = inc succ_received in
    acknowledge_range (span first succ_acked) first succ_acked n
    >>= resend_range (span missing received) missing received

unfoldable pub apply_all_unacknowledged_events : Node → Outcome Node
apply_all_unacknowledged_events n =
    let first = inc (get_last_applied n.event_buffer) in
    let last = get_last_received n.event_buffer in acknowledge_range (span first last) first last n

-- The RPC `SetPredecessor`
unfoldable pub set_predecessor : Option NodeInfo → Node → Node
unfolding set_predecessor_connection
set_predecessor pred n = set_predecessor_connection pred n

-- The RPC `SetSuccessor`
unfoldable pub set_successor : Option NodeInfo → Option (Int64 × Int64) → Node → Outcome Node
unfolding set_successor_connection
set_successor none reply n = apply_all_unacknowledged_events (set_successor_connection none n)
set_successor (some succ) reply n =
    sync_with_successor reply (set_successor_connection (some succ) n)
