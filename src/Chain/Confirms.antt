-- ===== src/Chain/Confirms.antt =====
-- pkg/server: what the confirmation of an event changes of a node, as the chain sees it.
use razpravljalnica.Base.{
  nat_eq, ℕ, arith, inl, inr, some, ◌≡◌, ◌⊎◌, Option-cases, ◌∷◌, [], get_elem?-snoc, String, ◌++◌,
  ap, ◌+◌,
}
use razpravljalnica.Dict.{lookup, lookup-erase}
use razpravljalnica.Outcome.{returns, >>=-eq-returns}
use razpravljalnica.Event.{Event}
use razpravljalnica.EventBuffer.{EventBuffer}
use razpravljalnica.EventBuffer.Invariant.{confirmed}
use razpravljalnica.Node.State.{Node, acknowledge_event as acknowledge_rpc}
use razpravljalnica.Node.Apply.{apply_event}
use razpravljalnica.Node.Acks.{acknowledge_event, pass_on_ack, process_ack}
use razpravljalnica.Node.Replay.{
  IsServing, apply_event-transition, next_event, process_ack-taken, taken,
}
use razpravljalnica.Chain.Links.{Effect, Same}

-- An acknowledged event is applied; a node with a predecessor tells it.
acknowledge_event_parts :
    (event : Event) (n n' : Node)
    → acknowledge_event event n ≡ returns n'
    → Same (record n { sent = n'.sent }) n'
      × ((n'.sent ≡ n.sent)
          ⊎ ((address : String) × (n.predecessor ≡ some address)
              × (n'.sent ≡ n.sent ++ acknowledge_rpc address event.sequence_number ∷ [])))
unfolding acknowledge_event pass_on_ack
acknowledge_event_parts event n n' h =
    let ((m, r), applied, passed) =
      >>=-eq-returns (apply_event event n) (λ q. pass_on_ack event q.1 q.0) h in
    let parts = apply_event-transition event n m r applied in
    elim (Option-cases m.predecessor) [
      | inl head ↦ (ground (arith, parts), inl (ground (arith, parts)))
      | inr (address, e) ↦
          (ground (arith, parts), inr (address, ground (arith, parts), ground (arith, parts)))
    ]

pub process_ack-Effect :
    (E : ℕ → Event → Type 0) (event : Event) (n n' : Node)
    → IsServing n
    → lookup n.next_ack_seq n.ack_queue ≡ some event
    → process_ack event n ≡ returns n'
    → Effect (λ x. x ≡ n.next_ack_seq) E n n'
process_ack-Effect E event n n' v found h =
    let (at, numbered, inside) = next_event event n v found in
    let (same, sent) =
      acknowledge_event_parts event (taken n) n' (rw (← process_ack-taken event n v found) h) in
    let last : confirmed n'.event_buffer ≡ n.next_ack_seq + 1 =
      ground (arith, same.same_log, v.log.fits) in
    record {
      same_successor = same.same_successor;
      same_predecessor = same.same_predecessor;
      enters = λ x e q. inl (rw (← ap (λ (b : EventBuffer). b.events) same.same_log) q);
      stays = λ x e q. rw (ap (λ (b : EventBuffer). b.events) same.same_log) q;
      confirms = omega (arith, last, v.acked);
      confirmed_by = λ x q. ground (arith, last, v.acked);
      queues = λ x e q. inl (rw (← same.same_events) q);
      fits_on = λ w. rw (same.same_events, same.same_seq, same.same_log) w;
      acks =
          λ x e q. inl (ground (arith, same.same_acks, lookup-erase n.next_ack_seq x n.ack_queue));
      sends = λ i call q. elim sent [
        | inl old ↦ inl (rw (← old) q)
        | inr (address, pred, more) ↦
            elim (get_elem?-snoc n.sent (acknowledge_rpc address event.sequence_number) i call
              (rw (← more) q)) [
                | inl old ↦ inl old
                | inr (_, e) ↦
                    inr (rw (e, same.same_predecessor) pred, rw e (omega (arith, last, numbered)))
              ]
      ];
    }
