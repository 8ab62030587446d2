-- ===== src/Tests/Wakeups.antt =====
-- pkg/server/server_replicate.go on a HEAD that is alone in its chain.
use razpravljalnica.Base.{nat_eq, refl, some, ◌≡◌}
use razpravljalnica.Dict.{lookup}
use razpravljalnica.Outcome.{blocks}
use razpravljalnica.EventBuffer.{new_event_buffer, create_user_event}
use razpravljalnica.Node.State.{Node, new_server}
use razpravljalnica.Node.Wakeups.{
  Running, Phase, waiting, leaving, buffer_event_and_wake, replicator_step,
}
use razpravljalnica.Node.Wakeups.Lost.{run, wakeup_lost}
use razpravljalnica.Tests.Nodes.{ana}

-- The node has logged the event and not handed it on yet.
abbrev idle : Node
idle = record (new_server "a" ":1") {
  event_buffer = (create_user_event (record { name = "ana" }) 5 new_event_buffer).0;
}

abbrev at : Phase → Running
at phase = record { node = idle; event_replicator = phase; ack_processor = waiting }

wakeup_lost_example :
    let after = run replicator_step 4 (buffer_event_and_wake ana (at leaving)) in
    (lookup after.node.next_event_seq after.node.event_queue ≡ some ana)
    × (replicator_step after ≡ blocks)
unfolding new_server
wakeup_lost_example = wakeup_lost ana (at leaving) 3 refl refl
