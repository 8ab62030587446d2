-- ===== src/Node/Streams/Steps.antt =====
-- pkg/server: each step of a node keeps its subscriptions in order, so they are in order in every
-- state that it can reach.
use razpravljalnica.Base.{
  nat_eq, string_eq, ℕ, Bool-cases, Option, Option-cases, arith, inl, inr, none, some, suc, zero,
  ◌≡◌, ◌∙◌,
}
use razpravljalnica.Int64.{Int64, inc, sle}
use razpravljalnica.Dict.{erase}
use razpravljalnica.Outcome.{returns, ◌>>=◌, or_panic, >>=-eq-returns}
use razpravljalnica.Event.{Event, NodeInfo}
use razpravljalnica.EventBuffer.{add_event, get_event, acknowledge_event as acknowledge_in_buffer}
use razpravljalnica.AckSync.{EventApplicationResult}
use razpravljalnica.Node.State.{Node}
use razpravljalnica.Node.Apply.{apply_event}
use razpravljalnica.Node.Acks.{buffer_ack, pass_on_ack, acknowledge_event, process_ack}
use razpravljalnica.Node.Replicate.{
  buffer_event, replicate_event, replicate_next, start_replication, finish_replication,
}
use razpravljalnica.Node.Writes.{waiting}
use razpravljalnica.Node.Neighbors.{
  set_predecessor, set_successor, acknowledge_range, resend_range, sync_with_successor,
  apply_all_unacknowledged_events,
}
use razpravljalnica.Node.Safety.{begin-logged}
use razpravljalnica.Node.Steps.{Request, begin}
use razpravljalnica.Node.Streams.{IsStreaming, Same, Same-IsStreaming, apply_event-IsStreaming}

pub begin-Same :
    (req : Request) (now : ℕ) (n n' : Node) (event : Event)
    → begin req now n ≡ waiting event n'
    → Same n n'
unfolding start_replication buffer_event
begin-Same req now n n' event h =
    let (_, _, after) = begin-logged req now n n' event h in ground (arith, after)

pub finish_replication-Same :
    (event : Event) (n n' : Node) (r : EventApplicationResult)
    → finish_replication event n ≡ returns (n', r)
    → Same n n'
unfolding finish_replication
finish_replication-Same event n n' r h = ground arith

pub buffer_event-Same : (event : Event) (n : Node) → Same n (buffer_event event n)
unfolding buffer_event
buffer_event-Same event n = ground arith

pub buffer_ack-Same : (seq : Int64) (n n' : Node) → buffer_ack seq n ≡ returns n' → Same n n'
unfolding buffer_ack
buffer_ack-Same seq n n' h = ground arith

replicate_event-Same :
    (event : Event) (n n' : Node) → replicate_event event n ≡ returns n' → Same n n'
unfolding replicate_event
replicate_event-Same event n n' h = elim (Option-cases n.successor) [
  | inl tail ↦ buffer_ack-Same event.sequence_number n n' (ground arith)
  | inr (address, e) ↦ ground arith
]

pub replicate_next-Same :
    (event : Event) (n n' : Node) → replicate_next event n ≡ returns n' → Same n n'
unfolding replicate_next
replicate_next-Same event n n' h =
    let (buffer, _, rest) =
      >>=-eq-returns (or_panic (add_event event n.event_buffer))
        (λ buffer. replicate_event event (record n {
          event_queue = erase n.next_event_seq n.event_queue;
          next_event_seq = inc n.next_event_seq;
          event_buffer = buffer;
        }))
        h in
    replicate_event-Same event
      (record n {
        event_queue = erase n.next_event_seq n.event_queue;
        next_event_seq = inc n.next_event_seq;
        event_buffer = buffer;
      })
      n' rest

pass_on_ack-Same :
    (event : Event) (r : EventApplicationResult) (n n' : Node)
    → pass_on_ack event r n ≡ returns n'
    → Same n n'
unfolding pass_on_ack
pass_on_ack-Same event r n n' h = ground arith

acknowledge_event-IsStreaming :
    (event : Event) (n n' : Node)
    → acknowledge_event event n ≡ returns n'
    → IsStreaming n
    → IsStreaming n'
unfolding acknowledge_event
acknowledge_event-IsStreaming event n n' h v =
    let ((m, r), applied, passed) =
      >>=-eq-returns (apply_event event n) (λ q. pass_on_ack event q.1 q.0) h in
    Same-IsStreaming m n' (pass_on_ack-Same event r m n' passed)
      (apply_event-IsStreaming event n m r applied v)

pub process_ack-IsStreaming :
    (event : Event) (n n' : Node)
    → process_ack event n ≡ returns n'
    → IsStreaming n
    → IsStreaming n'
unfolding process_ack
process_ack-IsStreaming event n n' h v =
    let (taken, _, rest) =
      >>=-eq-returns (or_panic (acknowledge_in_buffer event.sequence_number n.event_buffer))
        (λ taken. acknowledge_event event (record n {
          ack_queue = erase n.next_ack_seq n.ack_queue;
          next_ack_seq = inc n.next_ack_seq;
          event_buffer = taken.0;
        }))
        h in
    acknowledge_event-IsStreaming event
      (record n {
        ack_queue = erase n.next_ack_seq n.ack_queue;
        next_ack_seq = inc n.next_ack_seq;
        event_buffer = taken.0;
      })
      n' rest v

acknowledge_range-Same :
    (fuel : ℕ) (seq last : Int64) (n n' : Node)
    → acknowledge_range fuel seq last n ≡ returns n'
    → Same n n'
unfolding acknowledge_range
acknowledge_range-Same zero seq last n n' h = ground arith
acknowledge_range-Same (suc fuel) seq last n n' h = elim (Bool-cases (sle seq last)) [
  | inr over ↦ ground arith
  | inl more ↦
      let (m, one, rest) =
        >>=-eq-returns (buffer_ack seq n) (acknowledge_range fuel (inc seq) last) (ground arith) in
      acknowledge_range-Same fuel (inc seq) last m n' rest ∙ buffer_ack-Same seq n m one
]

resend_range-Same :
    (fuel : ℕ) (seq last : Int64) (n n' : Node)
    → resend_range fuel seq last n ≡ returns n'
    → Same n n'
unfolding resend_range
resend_range-Same zero seq last n n' h = ground arith
resend_range-Same (suc fuel) seq last n n' h = elim (Bool-cases (sle seq last)) [
  | inr over ↦ ground arith
  | inl more ↦
      let (event, got, sending) =
        >>=-eq-returns (or_panic (get_event seq n.event_buffer))
          (λ e. replicate_event e n >>= resend_range fuel (inc seq) last) (ground arith) in
      let (m, one, rest) =
        >>=-eq-returns (replicate_event event n) (resend_range fuel (inc seq) last) sending in
      resend_range-Same fuel (inc seq) last m n' rest ∙ replicate_event-Same event n m one
]

pub set_successor-Same :
    (succ : Option NodeInfo) (reply : Option (Int64 × Int64)) (n n' : Node)
    → set_successor succ reply n ≡ returns n'
    → Same n n'
unfolding set_successor apply_all_unacknowledged_events sync_with_successor
set_successor-Same none reply n n' h =
    acknowledge_range-Same _ _ _ (record n { successor = none }) n' h
set_successor-Same (some succ) none n n' h = ground arith
set_successor-Same (some succ) (some (received, acked)) n n' h =
    let (m, acks, rest) = >>=-eq-returns _ _ h in
    resend_range-Same _ _ _ m n' rest
    ∙ acknowledge_range-Same _ _ _ (record n { successor = some succ.address }) m acks

pub set_predecessor-Same : (pred : Option NodeInfo) (n : Node) → Same n (set_predecessor pred n)
unfolding set_predecessor
set_predecessor-Same none n = ground arith
set_predecessor-Same (some pred) n = ground arith
