-- ===== src/Tests/Nodes.antt =====
-- pkg/server on a HEAD that is alone in its chain, and on a TAIL that gets the same event from a
-- predecessor.
use razpravljalnica.Base.{nat_eq, string_eq, arith, refl, none, some, ◌≡◌, ◌∷◌, [], inr, length}
use razpravljalnica.Dict.{lookup, insert, erase}
use razpravljalnica.Outcome.{Outcome, returns, blocks, panics}
use razpravljalnica.Event.{Event, bare_event, op_create_user}
use razpravljalnica.EventBuffer.{
  new_event_buffer, create_user_event, add_event, acknowledge_event as acknowledge_in_buffer,
  get_event,
}
use razpravljalnica.AckSync.{new_ack_synchronization, open_ack_channel, signal_ack_if_waiting}
use razpravljalnica.Subscriptions.{new_subscription_manager}
use razpravljalnica.Storage.Types.{new_storage, Storage}
use razpravljalnica.Storage.Users.{create_user}
use razpravljalnica.Node.State.{Node, new_server, require_head, is_head, set_predecessor_connection}
use razpravljalnica.Node.Apply.{apply_event}
use razpravljalnica.Node.Acks.{
  buffer_ack, pass_on_ack, acknowledge_event, process_ack, process_next_acks,
}
use razpravljalnica.Node.Replicate.{
  buffer_event, replicate_event, replicate_next, start_replication,
}
use razpravljalnica.Node.Writes.{create_user_begin}
use razpravljalnica.Node.Neighbors.{set_predecessor}
use razpravljalnica.Node.Steps.{
  Reach, start, next, writes, receives_event, replicates, acknowledges, gets_predecessor, begin,
  logged, create_user as create_user_request,
}
use razpravljalnica.Node.Safety.{Reach-IsServing, replicas_agree}
use razpravljalnica.Node.Replay.{IsServing, replay}
use razpravljalnica.Node.Growth.{IsWithin}
use razpravljalnica.Node.Growth.Logs.{replay-IsValid}
use razpravljalnica.Node.Progress.{CanServe, process_ack_returns}
use razpravljalnica.Node.Drains.{process_next_acks_drains}
use razpravljalnica.Node.Streams.{IsStreaming}
use razpravljalnica.Node.Streams.Reached.{Reach-IsStreaming}
use razpravljalnica.Subscriptions.Open.{new_subscription_manager-IsOpen}

abbrev pub the : Outcome Node → Node
the (returns n) = n
the blocks = new_server "" ""
the panics = new_server "" ""

abbrev pub ana : Event
ana = record (bare_event 0 op_create_user 5) { create_user = some (record { name = "ana" }) }

abbrev head_written : Node
head_written = start_replication ana (record (new_server "a" ":1") {
  event_buffer = (create_user_event (record { name = "ana" }) 5 new_event_buffer).0;
})

abbrev head_replicated : Node
head_replicated = the (replicate_next ana head_written)

abbrev head_done : Node
head_done = the (process_ack ana head_replicated)

-- The TAIL has got its predecessor, and then the event.
abbrev tail_received : Node
tail_received =
    buffer_event ana
      (set_predecessor (some (record { node_id = "a"; address = ":1" })) (new_server "b" ":2"))

abbrev tail_replicated : Node
tail_replicated = the (replicate_next ana tail_received)

abbrev tail_done : Node
tail_done = the (process_ack ana tail_replicated)

head_replicated-Reach : Reach "a" ":1" head_replicated
unfolding new_server new_storage new_event_buffer new_ack_synchronization new_subscription_manager
    create_user_begin create_user_event start_replication buffer_event open_ack_channel require_head
    is_head replicate_next replicate_event add_event buffer_ack get_event lookup insert erase
    process_ack acknowledge_in_buffer acknowledge_event apply_event pass_on_ack
    signal_ack_if_waiting create_user begin logged set_predecessor set_predecessor_connection
head_replicated-Reach =
    next (next start (writes (create_user_request (record { name = "ana" })) 5 (omega arith) refl))
      (replicates (omega arith) refl refl)

head_done-Reach : Reach "a" ":1" head_done
unfolding new_server new_storage new_event_buffer new_ack_synchronization new_subscription_manager
    create_user_begin create_user_event start_replication buffer_event open_ack_channel require_head
    is_head replicate_next replicate_event add_event buffer_ack get_event lookup insert erase
    process_ack acknowledge_in_buffer acknowledge_event apply_event pass_on_ack
    signal_ack_if_waiting create_user begin logged set_predecessor set_predecessor_connection
head_done-Reach = next head_replicated-Reach (acknowledges refl refl)

tail_replicated-Reach : Reach "b" ":2" tail_replicated
unfolding new_server new_storage new_event_buffer new_ack_synchronization new_subscription_manager
    create_user_begin create_user_event start_replication buffer_event open_ack_channel require_head
    is_head replicate_next replicate_event add_event buffer_ack get_event lookup insert erase
    process_ack acknowledge_in_buffer acknowledge_event apply_event pass_on_ack
    signal_ack_if_waiting create_user begin logged set_predecessor set_predecessor_connection
tail_replicated-Reach =
    next
      (next (next start (gets_predecessor (some (record { node_id = "a"; address = ":1" }))))
        (receives_event ana))
      (replicates (omega arith) refl refl)

tail_done-Reach : Reach "b" ":2" tail_done
unfolding new_server new_storage new_event_buffer new_ack_synchronization new_subscription_manager
    create_user_begin create_user_event start_replication buffer_event open_ack_channel require_head
    is_head replicate_next replicate_event add_event buffer_ack get_event lookup insert erase
    process_ack acknowledge_in_buffer acknowledge_event apply_event pass_on_ack
    signal_ack_if_waiting create_user begin logged set_predecessor set_predecessor_connection
tail_done-Reach = next tail_replicated-Reach (acknowledges refl refl)

replicas_agree_example : head_done.storage ≡ tail_done.storage
unfolding new_server new_storage new_event_buffer new_ack_synchronization new_subscription_manager
    create_user_begin create_user_event start_replication buffer_event open_ack_channel require_head
    is_head replicate_next replicate_event add_event buffer_ack get_event lookup insert erase
    process_ack acknowledge_in_buffer acknowledge_event apply_event pass_on_ack
    signal_ack_if_waiting create_user begin logged set_predecessor set_predecessor_connection
replicas_agree_example = replicas_agree head_done-Reach tail_done-Reach refl

Reach-IsServing_example : IsServing head_done
Reach-IsServing_example = Reach-IsServing head_done-Reach

head_replicated-CanServe : CanServe head_replicated
unfolding new_server new_storage new_event_buffer new_ack_synchronization new_subscription_manager
    create_user_begin create_user_event start_replication buffer_event open_ack_channel require_head
    is_head replicate_next replicate_event add_event buffer_ack get_event lookup insert erase
    process_ack acknowledge_in_buffer acknowledge_event apply_event pass_on_ack
    signal_ack_if_waiting create_user begin logged set_predecessor set_predecessor_connection
head_replicated-CanServe = record {
  serving = Reach-IsServing head_replicated-Reach;
  channels = new_subscription_manager-IsOpen;
  complete = (λ e. cc, tt);
  room = omega arith;
}

process_ack_returns_example :
    (m : Node) × (process_ack ana head_replicated ≡ returns m)
    × CanServe m
    × (m.predecessor ≡ head_replicated.predecessor)
unfolding new_server new_storage new_event_buffer new_ack_synchronization new_subscription_manager
    create_user_begin create_user_event start_replication buffer_event open_ack_channel require_head
    is_head replicate_next replicate_event add_event buffer_ack get_event lookup insert erase
    process_ack acknowledge_in_buffer acknowledge_event apply_event pass_on_ack
    signal_ack_if_waiting create_user begin logged set_predecessor set_predecessor_connection
process_ack_returns_example =
    process_ack_returns ana head_replicated head_replicated-CanServe refl (inr (inr refl))

process_next_acks_drains_example :
    (m : Node) × (process_next_acks 1 tail_replicated ≡ returns m)
    × (lookup m.next_ack_seq m.ack_queue ≡ none)
    × IsServing m
unfolding new_server new_storage new_event_buffer new_ack_synchronization new_subscription_manager
    create_user_begin create_user_event start_replication buffer_event open_ack_channel require_head
    is_head replicate_next replicate_event add_event buffer_ack get_event lookup insert erase
    process_ack acknowledge_in_buffer acknowledge_event apply_event pass_on_ack
    signal_ack_if_waiting create_user begin logged set_predecessor set_predecessor_connection
process_next_acks_drains_example =
    process_next_acks_drains tail_replicated-Reach (λ e. cc, tt) (omega arith) (λ e. cc)

Reach-IsStreaming_example : IsStreaming tail_done
Reach-IsStreaming_example = Reach-IsStreaming tail_done-Reach

replay-IsValid_example :
    (s : Storage) × (replay (ana ∷ ana ∷ []) (some new_storage) ≡ some s)
    × IsWithin (length (ana ∷ ana ∷ [])) s
replay-IsValid_example = replay-IsValid (ana ∷ ana ∷ []) (λ e. cc, (λ e. cc, tt)) (omega arith)
