-- ===== src/Node/Acks/Fuel.antt =====
-- pkg/server/server_ack.go, `processNextAcks`: the loop ends, after at most as many rounds as the
-- queue of acknowledgments has entries.
use razpravljalnica.Base.{
  nat_eq, ℕ, Option-cases, arith, inl, inr, none, refl, some, suc, zero, ◌≡◌, ◌≤◌, ◌<◌, length, [],
  ◌+◌, ◌∷◌, subst, ◌∙◌, ap,
}
use razpravljalnica.Dict.{Dict, lookup, erase, length-erase-lt}
use razpravljalnica.Outcome.{Outcome, returns, blocks, panics, ◌>>=◌, >>=-eq-returns, or_panic}
use razpravljalnica.Event.{Event}
use razpravljalnica.Int64.{Int64, inc}
use razpravljalnica.Node.State.{Node}
use razpravljalnica.EventBuffer.{EventBuffer, acknowledge_event as acknowledge_in_buffer}
use razpravljalnica.Node.Acks.{process_ack, process_next_acks, acknowledge_event}
use razpravljalnica.Node.Replay.{acknowledge_event-transition, loop_stops, loop_goes_on}

-- A round takes its entry off the queue and adds none.
process_ack-queue :
    (event : Event) (n m : Node)
    → process_ack event n ≡ returns m
    → m.ack_queue ≡ erase n.next_ack_seq n.ack_queue
unfolding process_ack
process_ack-queue event n m h =
    let (r, _, acked) =
      >>=-eq-returns (or_panic (acknowledge_in_buffer event.sequence_number n.event_buffer))
        (λ r. acknowledge_event event (begun r.0)) h in
    (acknowledge_event-transition event (begun r.0) m acked).2
  where
    begun : EventBuffer → Node
    begun buffer = record n {
      ack_queue = erase n.next_ack_seq n.ack_queue;
      next_ack_seq = inc n.next_ack_seq;
      event_buffer = buffer;
    }

process_ack-shorter :
    (event : Event) (n m : Node)
    → lookup n.next_ack_seq n.ack_queue ≡ some event
    → process_ack event n ≡ returns m
    → length m.ack_queue < length n.ack_queue
process_ack-shorter event n m found h =
    ground (arith, process_ack-queue event n m h, length-erase-lt n.next_ack_seq event n.ack_queue)

lookup-nothing : (k : Int64) (queue : Dict Int64 Event) → length queue ≤ 0 → lookup k queue ≡ none
unfolding lookup
lookup-nothing k [] h = refl
lookup-nothing k (x ∷ queue) h = absurd (omega arith)

-- One round more does not change what the loop does, if there is fuel for the whole queue.
after_round :
    (fuel : ℕ) (o : Outcome Node)
    → ((m : Node) → o ≡ returns m → process_next_acks (suc fuel) m ≡ process_next_acks fuel m)
    → (o >>= process_next_acks (suc fuel)) ≡ (o >>= process_next_acks fuel)
after_round fuel (returns m) same = same m refl
after_round fuel blocks same = refl
after_round fuel panics same = refl

one_more :
    (fuel : ℕ) (n : Node)
    → length n.ack_queue ≤ fuel
    → process_next_acks (suc fuel) n ≡ process_next_acks fuel n
unfolding process_next_acks
one_more zero n h = rw (process_next_acks, lookup-nothing n.next_ack_seq n.ack_queue h) refl
one_more (suc fuel) n h = elim (Option-cases (lookup n.next_ack_seq n.ack_queue)) [
  | inl missing ↦ rw (process_next_acks, missing) refl
  | inr (event, found) ↦
      rw (process_next_acks, found)
        (after_round fuel (process_ack event n)
          λ m e. one_more fuel m (omega (arith, process_ack-shorter event n m found e)))
]

more_fuel :
    (more fuel : ℕ) (n : Node)
    → length n.ack_queue ≤ fuel
    → process_next_acks (more + fuel) n ≡ process_next_acks fuel n
more_fuel zero fuel n h =
    let same : 0 + fuel ≡ fuel = omega arith in ap (λ f. process_next_acks f n) same
more_fuel (suc more) fuel n h =
    let same : suc more + fuel ≡ suc (more + fuel) = omega arith in
    ap (λ f. process_next_acks f n) same
    ∙ one_more (more + fuel) n (omega arith)
    ∙ more_fuel more fuel n h

stops :
    (fuel : ℕ) (n n' : Node)
    → length n.ack_queue ≤ fuel
    → process_next_acks fuel n ≡ returns n'
    → lookup n'.next_ack_seq n'.ack_queue ≡ none
unfolding process_next_acks
stops zero n n' h e =
    let same : n ≡ n' = ground arith in
    subst (λ (m : Node). lookup m.next_ack_seq m.ack_queue ≡ none) same
      (lookup-nothing n.next_ack_seq n.ack_queue h)
stops (suc fuel) n n' h e = elim (Option-cases (lookup n.next_ack_seq n.ack_queue)) [
  | inl missing ↦
      subst (λ (m : Node). lookup m.next_ack_seq m.ack_queue ≡ none)
        (loop_stops fuel n n' missing e) missing
  | inr (event, found) ↦
      let (m, one, rest) = loop_goes_on fuel n n' event found e in
      stops fuel m n' (omega (arith, process_ack-shorter event n m found one)) rest
]

-- With as much fuel as its queue has entries, the acknowledgment loop does the same as with any
-- more of it.
pub process_next_acks-fuel :
    (more : ℕ) (n : Node)
    → process_next_acks (more + length n.ack_queue) n ≡ process_next_acks (length n.ack_queue) n
process_next_acks-fuel more n = more_fuel more (length n.ack_queue) n (omega arith)

-- With as much fuel as its queue has entries, an acknowledgment loop that returns has stopped
-- because the next acknowledgment is not in the queue.
pub process_next_acks-stops :
    (n n' : Node)
    → process_next_acks (length n.ack_queue) n ≡ returns n'
    → lookup n'.next_ack_seq n'.ack_queue ≡ none
process_next_acks-stops n n' h = stops (length n.ack_queue) n n' (omega arith) h
