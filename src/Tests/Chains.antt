-- ===== src/Tests/Chains.antt =====
-- pkg/server on a chain of two nodes: a write goes down from the HEAD, and its acknowledgment comes
-- back.
use razpravljalnica.Base.{
  nat_eq, string_eq, ℕ, List, String, [], arith, get_elem?, refl, none, some, ◌<◌, ◌≡◌, ◌++◌, suc,
  zero, take, ap,
}
use razpravljalnica.Dict.{lookup, insert, erase}
use razpravljalnica.Event.{Event}
use razpravljalnica.EventBuffer.{
  new_event_buffer, create_user_event, add_event, acknowledge_event as acknowledge_in_buffer,
  get_event,
}
use razpravljalnica.EventBuffer.Invariant.{confirmed}
use razpravljalnica.AckSync.{
  EventApplicationResult, new_ack_synchronization, open_ack_channel, signal_ack_if_waiting,
  wait_for_ack, close_ack_channel,
}
use razpravljalnica.Subscriptions.{new_subscription_manager}
use razpravljalnica.Storage.Types.{new_storage}
use razpravljalnica.Storage.Users.{create_user}
use razpravljalnica.Node.State.{Node, new_server, require_head, is_head}
use razpravljalnica.Node.Apply.{apply_event}
use razpravljalnica.Node.Acks.{buffer_ack, pass_on_ack, acknowledge_event, process_ack}
use razpravljalnica.Node.Replicate.{
  buffer_event, replicate_event, replicate_next, start_replication, finish_replication,
}
use razpravljalnica.Node.Writes.{create_user_begin}
use razpravljalnica.Node.Replay.{replay}
use razpravljalnica.Node.Steps.{
  writes, receives_event, receives_ack, replicates, acknowledges, begin, logged,
  create_user as create_user_request,
}
use razpravljalnica.Chain.{System, Reach, start, next, moves, formed, update}
use razpravljalnica.Chain.Safety.{storage_behind}
use razpravljalnica.Chain.Answered.{answered_write}
use razpravljalnica.Tests.Nodes.{the, ana}

-- Node `i` has the address of `i` letters.
abbrev address : ℕ → String
address zero = ""
address (suc i) = String.◌∷◌ "n" (address i)

distinct : (i j : ℕ) → address i ≡ address j → i ≡ j
distinct zero zero h = refl
distinct zero (suc j) h = absurd (cc)
distinct (suc i) zero h = absurd (cc)
distinct (suc i) (suc j) h = ap suc (distinct i j (cc))

abbrev put : System → ℕ → Node → System
put s i n = record s { nodes = update s.nodes i n }

abbrev at_start : System
at_start = formed address 2

abbrev written : System
written = put at_start 0 (
    start_replication ana (record (at_start.nodes 0) {
      event_buffer = (create_user_event (record { name = "ana" }) 5 new_event_buffer).0;
    }))

abbrev sent_on : System
sent_on = put written 0 (the (replicate_next ana (written.nodes 0)))

abbrev received : System
received = put sent_on 1 (buffer_event ana (sent_on.nodes 1))

abbrev logged_at_tail : System
logged_at_tail = put received 1 (the (replicate_next ana (received.nodes 1)))

abbrev applied_at_tail : System
applied_at_tail = put logged_at_tail 1 (the (process_ack ana (logged_at_tail.nodes 1)))

abbrev acknowledged : System
acknowledged = put applied_at_tail 0 (the (buffer_ack 0 (applied_at_tail.nodes 0)))

abbrev applied : System
applied = put acknowledged 0 (the (process_ack ana (acknowledged.nodes 0)))

applied_at_tail-Reach : Reach address 2 applied_at_tail
unfolding new_server new_storage new_event_buffer new_ack_synchronization new_subscription_manager
    create_user_begin create_user_event start_replication buffer_event open_ack_channel require_head
    is_head replicate_next replicate_event add_event buffer_ack get_event lookup insert erase
    process_ack acknowledge_in_buffer acknowledge_event apply_event pass_on_ack
    signal_ack_if_waiting create_user begin logged
applied_at_tail-Reach =
    let r1 : Reach address 2 written = next start (
      moves 0 refl (writes (create_user_request (record { name = "ana" })) 5 (omega arith) refl)
        tt) in
    let r2 : Reach address 2 sent_on =
      next r1 (moves 0 refl (replicates (omega arith) refl refl) tt) in
    let r3 : Reach address 2 received =
      next r2 (moves 1 refl (receives_event ana) (0, 0, refl, refl)) in
    let r4 : Reach address 2 logged_at_tail =
      next r3 (moves 1 refl (replicates (omega arith) refl refl) tt) in
    next r4 (moves 1 refl (acknowledges refl refl) tt)

applied-Reach : Reach address 2 applied
unfolding new_server new_storage new_event_buffer new_ack_synchronization new_subscription_manager
    create_user_begin create_user_event start_replication buffer_event open_ack_channel require_head
    is_head replicate_next replicate_event add_event buffer_ack get_event lookup insert erase
    process_ack acknowledge_in_buffer acknowledge_event apply_event pass_on_ack
    signal_ack_if_waiting create_user begin logged
applied-Reach =
    let r : Reach address 2 acknowledged =
      next applied_at_tail-Reach (moves 0 refl (receives_ack 0 refl) (1, 0, refl, refl)) in
    next r (moves 0 refl (acknowledges refl refl) tt)

-- The TAIL has applied the write, the HEAD has not yet.
storage_behind_example :
    (rest : List Event) × (take
        (confirmed (applied_at_tail.nodes 1).event_buffer)
        (applied_at_tail.nodes 0).event_buffer.events
      ≡ take
          (confirmed (applied_at_tail.nodes 0).event_buffer)
          (applied_at_tail.nodes 0).event_buffer.events
        ++ rest)
    × (replay rest (some (applied_at_tail.nodes 0).storage)
        ≡ some (applied_at_tail.nodes 1).storage)
storage_behind_example =
    storage_behind address distinct 0 1 applied_at_tail-Reach (omega arith) refl refl

abbrev answer : EventApplicationResult
answer = record {
  message = none;
  user = some (record { id = 1; name = "ana" });
  topic = none;
  err = none;
}

answered_write_example :
    (0 < confirmed (applied.nodes 1).event_buffer)
    × (get_elem? (applied.nodes 1).event_buffer.events 0
        ≡ get_elem? (applied.nodes 0).event_buffer.events 0)
unfolding finish_replication wait_for_ack close_ack_channel new_server new_storage new_event_buffer
    new_ack_synchronization new_subscription_manager create_user_begin create_user_event
    start_replication buffer_event open_ack_channel require_head is_head replicate_next
    replicate_event add_event buffer_ack get_event lookup insert erase process_ack
    acknowledge_in_buffer acknowledge_event apply_event pass_on_ack signal_ack_if_waiting
    create_user begin logged
answered_write_example =
    answered_write address distinct 0 1 ana answer
      (record (applied.nodes 0) { ack_sync = record { ack_channels = [] } }) applied-Reach
      (omega arith) refl refl refl
