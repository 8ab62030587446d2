-- ===== src/Node/Wakeups/Lost.antt =====
-- pkg/server/server_replicate.go, server_ack.go: which wake-ups arrive.
use razpravljalnica.Base.{nat_eq, ℕ, arith, inl, inr, refl, subst, some, suc, zero, ◌≡◌, ◌⊎◌}
use razpravljalnica.Dict.{lookup, insert, lookup-insert}
use razpravljalnica.Outcome.{Outcome, returns, blocks, panics}
use razpravljalnica.Event.{Event}
use razpravljalnica.Node.State.{Node}
use razpravljalnica.Node.Replicate.{buffer_event, replicate_next}
use razpravljalnica.Node.Wakeups.{
  draining, leaving, waiting, Running, notify, buffer_event_and_wake, replicator_step, woken,
}

-- A goroutine by itself, until it blocks.
unfoldable pub run : (Running → Outcome Running) → ℕ → Running → Running
run step zero g = g
run step (suc k) g = elim (step g) [ returns g' ↦ run step k g' | blocks ↦ g | panics ↦ g ]

buffered :
    (event : Event) (g : Running)
    → event.sequence_number ≡ g.node.next_event_seq
    → record g {
      node = record g.node { event_queue = insert event.sequence_number event g.node.event_queue };
      event_replicator = notify g.event_replicator;
    }
      ≡ buffer_event_and_wake event g
unfolding buffer_event_and_wake buffer_event
buffered event g own = ground arith

found_at_next :
    (event : Event) (n : Node)
    → event.sequence_number ≡ n.next_event_seq
    → lookup n.next_event_seq (insert event.sequence_number event n.event_queue) ≡ some event
found_at_next event n own =
    ground (arith, lookup-insert event.sequence_number n.next_event_seq event n.event_queue)

step_waiting : (g : Running) → g.event_replicator ≡ waiting → replicator_step g ≡ blocks
unfolding replicator_step
step_waiting g h = ground arith

step_draining :
    (event : Event) (g : Running) (n' : Node)
    → g.event_replicator ≡ draining
    → lookup g.node.next_event_seq g.node.event_queue ≡ some event
    → replicate_next event g.node ≡ returns n'
    → replicator_step g ≡ returns (record g { node = n'; ack_processor = woken event g })
unfolding replicator_step
step_draining event g n' phase found h = ground arith

taken_of :
    (event : Event) (g : Running) (n' : Node)
    → g.event_replicator ≡ draining
    → lookup g.node.next_event_seq g.node.event_queue ≡ some event
    → replicate_next event g.node ≡ returns n'
    → (run replicator_step 1 g).node ≡ n'
unfolding run
taken_of event g n' phase found h = rw (run, step_draining event g n' phase found h) refl

-- Where the next event is queued while the replicator is in its loop or waits at its `select`, the
-- next round of the replicator takes that event.
pub wakeup_taken :
    (event : Event) (g : Running) (n' : Node)
    → event.sequence_number ≡ g.node.next_event_seq
    → (g.event_replicator ≡ draining) ⊎ (g.event_replicator ≡ waiting)
    → replicate_next event (buffer_event_and_wake event g).node ≡ returns n'
    → (run replicator_step 1 (buffer_event_and_wake event g)).node ≡ n'
unfolding notify
wakeup_taken event g n' own phase h =
    let here = buffered event g own in
    subst
      (λ (r : Running).
        replicate_next event r.node ≡ returns n' → (run replicator_step 1 r).node ≡ n')
      here
      (taken_of event
        (record g {
          node = record g.node {
            event_queue = insert event.sequence_number event g.node.event_queue;
          };
          event_replicator = notify g.event_replicator;
        })
        n' (drains phase) (found_at_next event g.node own))
      h
  where
    drains :
        (g.event_replicator ≡ draining) ⊎ (g.event_replicator ≡ waiting)
        → notify g.event_replicator ≡ draining
    drains (inl d) = rw (d, notify)
    drains (inr w) = rw (w, notify)

run-waiting : (k : ℕ) (g : Running) → g.event_replicator ≡ waiting → run replicator_step k g ≡ g
unfolding run
run-waiting zero g h = refl
run-waiting (suc k) g h = rw (run, step_waiting g h) refl

-- Where the replicator has left its loop and has not reached its `select` when the next event is
-- queued, the wake-up is lost: however long the replicator runs by itself, it comes to wait with
-- that event still at the front of its queue.
pub wakeup_lost :
    (event : Event) (g : Running) (k : ℕ)
    → event.sequence_number ≡ g.node.next_event_seq
    → g.event_replicator ≡ leaving
    → let after = run replicator_step (suc k) (buffer_event_and_wake event g) in
      (lookup after.node.next_event_seq after.node.event_queue ≡ some event)
      × (replicator_step after ≡ blocks)
unfolding run replicator_step notify
wakeup_lost event g k own phase =
    let here = buffered event g own in
    let w : Running = record {
      node = record g.node { event_queue = insert event.sequence_number event g.node.event_queue };
      event_replicator = waiting;
      ack_processor = g.ack_processor;
    } in
    subst
      (λ (r : Running).
        let after = run replicator_step (suc k) r in
        (lookup after.node.next_event_seq after.node.event_queue ≡ some event)
        × (replicator_step after ≡ blocks))
      here (rw (phase, run-waiting k w refl) (found_at_next event g.node own, refl))
