-- ===== src/Chain/Growing.antt =====
-- pkg/server: what writes, replicated events and confirmed events change of a node, as the chain
-- sees it.
use razpravljalnica.Base.{
  nat_eq, ℕ, arith, get_elem?, inl, inr, length, none, refl, some, ◌<◌, ◌≡◌, ◌≤◌, ◌⊎◌, Bool-cases,
  ◌∷◌, [], get_elem?-snoc, get_elem?-append_left, lt_of_get_elem?, get_elem?-append_last,
  length-append, subst, ◌++◌, ◌∙◌, ap, ◌+◌, ◌≢◌, sym,
}
use razpravljalnica.Int64.{Int64, half, inc, slt}
use razpravljalnica.Dict.{insert, lookup-insert, erase, lookup, lookup-erase}
use razpravljalnica.Outcome.{returns, >>=-eq-returns, or_panic, or_panic-eq-returns}
use razpravljalnica.Event.{Event}
use razpravljalnica.EventBuffer.{EventBuffer, append, add_event}
use razpravljalnica.AckSync.{open_ack_channel}
use razpravljalnica.Node.State.{Node}
use razpravljalnica.Node.Replicate.{buffer_event, replicate_next, start_replication}
use razpravljalnica.Node.Writes.{waiting}
use razpravljalnica.Node.Replay.{IsServing, add_event-Serving}
use razpravljalnica.Node.Safety.{begin-logged, logged-append}
use razpravljalnica.Node.Steps.{HasRoom, Request, begin, logged}
use razpravljalnica.Chain.Links.{Holds, Queued, Effect, Effect-trans, QueueFits}
use razpravljalnica.Chain.Effects.{replicate_event-Effect}

pub buffer_event-Effect :
    (P : ℕ → Type 0) (event : Event) (n : Node)
    → IsServing n
    → event.sequence_number < half
    → (event.sequence_number < length n.event_buffer.events → Holds n event.sequence_number event)
    → Effect P (λ x e. (x ≡ event.sequence_number) × (e ≡ event)) n (buffer_event event n)
unfolding buffer_event
buffer_event-Effect P event n v small known = record {
  same_successor = ground arith;
  same_predecessor = ground arith;
  enters = λ x e h. inl (ground arith);
  stays = λ x e h. ground arith;
  confirms = ground arith;
  confirmed_by = λ x h. inl (ground arith);
  queues = λ x e h. ground (arith, lookup-insert event.sequence_number x event n.event_queue);
  fits_on = λ w. (
    ground (arith, w.0),
    λ x e h.
        let before = lookup-insert event.sequence_number x event n.event_queue in
        (ground (arith, w.1 x e), ground (arith, w.1 x e), λ inside. ground (arith, w.1 x e)),
  );
  acks = λ x e h. inl (ground arith);
  sends = λ at call h. inl (ground arith);
}

-- An event comes to the end of the log, and under its number none but this event waits.
grows-Effect :
    (P : ℕ → Type 0) (E : ℕ → Event → Type 0) (event : Event) (n n' : Node)
    → IsServing n
    → event.sequence_number ≡ length n.event_buffer.events
    → event.sequence_number < half
    → E event.sequence_number event
    → n'.event_buffer ≡ append event n.event_buffer
    → n'.successor ≡ n.successor
    → n'.predecessor ≡ n.predecessor
    → n'.ack_queue ≡ n.ack_queue
    → n'.sent ≡ n.sent
    → (n.next_event_seq ≤ length n.event_buffer.events
        → n'.next_event_seq ≤ length n.event_buffer.events + 1)
    → ((x : Int64) (e : Event)
        → Queued n' x e
        → (Queued n x e × (x ≢ event.sequence_number))
          ⊎ ((x ≡ event.sequence_number) × (e ≡ event)))
    → Effect P E n n'
grows-Effect P E event n n' v own small new log succ pred acks sent paced waits = record {
  same_successor = succ;
  same_predecessor = pred;
  enters = λ x e h.
      elim (get_elem?-snoc n.event_buffer.events event x e
        (rw (← ap (λ (b : EventBuffer). b.events) log) h)) [
          | inl old ↦ inl old
          | inr (x_at, e_at) ↦ inr (rw (x_at, e_at, ← own) new)
        ];
  stays = stays;
  confirms = ground (arith, log);
  confirmed_by = λ x h. inl (ground (arith, log));
  queues = λ x e h. elim (waits x e h) [
    | inl (old, _) ↦ inl old
    | inr (x_at, e_at) ↦ inr (rw (x_at, e_at) new)
  ];
  fits_on = λ w. (
    omega (arith, longer, paced w.0),
    λ x e h. elim (waits x e h) [
      | inl (old, other) ↦
          let (at, below, inside) = w.1 x e old in
          (at, below, λ now. stays x e (inside (omega (arith, longer, other))))
      | inr (x_at, e_at) ↦ (rw (x_at, e_at), rw x_at small, λ _. rw (x_at, e_at, log) (at_end))
    ],
  );
  acks = λ x e h. inl (rw (← acks) h);
  sends = λ at call h. inl (rw (← sent) h);
}
  where
    longer : length n'.event_buffer.events ≡ length n.event_buffer.events + 1
    longer = rw log (omega (arith, length-append n.event_buffer.events (event ∷ [])))

    at_end : get_elem? (n.event_buffer.events ++ event ∷ []) event.sequence_number ≡ some event
    at_end =
        subst (λ i. get_elem? (n.event_buffer.events ++ event ∷ []) i ≡ some event) (sym own)
          (get_elem?-append_last n.event_buffer.events event)

    stays : (x : ℕ) (e : Event) → Holds n x e → Holds n' x e
    stays x e h = rw log (
        get_elem?-append_left n.event_buffer.events (event ∷ []) x
          (lt_of_get_elem? n.event_buffer.events x e h)
        ∙ h)

-- An event that the log has already is taken off the queue.
passes-Effect :
    (P : ℕ → Type 0) (E : ℕ → Event → Type 0) (n : Node)
    → IsServing n
    → n.next_event_seq < length n.event_buffer.events
    → Effect P E n (record n {
      event_queue = erase n.next_event_seq n.event_queue;
      next_event_seq = inc n.next_event_seq;
    })
passes-Effect P E n v inside = record {
  same_successor = refl;
  same_predecessor = refl;
  enters = λ x e h. inl h;
  stays = λ x e h. h;
  confirms = omega arith;
  confirmed_by = λ x h. inl h;
  queues = λ x e h. inl (erased x e h);
  fits_on = λ w. (omega (arith, v.log.fits), λ x e h. w.1 x e (erased x e h));
  acks = λ x e h. inl h;
  sends = λ at call h. inl h;
}
  where
    erased :
        (x : Int64) (e : Event)
        → lookup x (erase n.next_event_seq n.event_queue) ≡ some e
        → Queued n x e
    erased x e h = ground (arith, lookup-erase n.next_event_seq x n.event_queue)

-- The node after a round has taken an event off the queue, with its new log.
abbrev advanced : Node → EventBuffer → Node
advanced n buffer = record n {
  event_queue = erase n.next_event_seq n.event_queue;
  next_event_seq = inc n.next_event_seq;
  event_buffer = buffer;
}

added-Effect :
    (P : ℕ → Type 0) (event : Event) (n : Node) (buffer : EventBuffer)
    → IsServing n
    → HasRoom n
    → QueueFits n
    → lookup n.next_event_seq n.event_queue ≡ some event
    → add_event event n.event_buffer ≡ some buffer
    → Effect P (Queued n) n (advanced n buffer)
      × Holds (advanced n buffer) event.sequence_number event
unfolding add_event
added-Effect P event n buffer v room w found add =
    let (at, small, inside) = w.1 n.next_event_seq event found in
    elim (Bool-cases (slt event.sequence_number n.event_buffer.next_event_seq)) [
      | inl old ↦
          let below : n.next_event_seq < length n.event_buffer.events =
            ground (arith, v.log.counted, v.log.fits) in
          let same : n.event_buffer ≡ buffer = ground arith in
          subst
            (λ b.
              Effect P (Queued n) n (advanced n b)
              × Holds (advanced n b) event.sequence_number event)
            same
            (
              passes-Effect P (Queued n) n v below,
              subst (λ i. get_elem? n.event_buffer.events i ≡ some event) (sym at) (inside below),
            )
      | inr not_old ↦
          let own : event.sequence_number ≡ length n.event_buffer.events =
            ground (arith, v.log.counted) in
          let same : append event n.event_buffer ≡ buffer = ground arith in
          let f =
            grows-Effect P (Queued n) event n (advanced n (append event n.event_buffer)) v own
              (rw at small) (subst (λ i. Queued n i event) (sym at) found) refl refl refl refl refl
              (λ paced. omega (arith, v.log.fits))
              (λ x e h. inl (
                ground (arith, lookup-erase n.next_event_seq x n.event_queue),
                λ same_x. ground (arith, lookup-erase n.next_event_seq x n.event_queue),
              )) in
          subst
            (λ b.
              Effect P (Queued n) n (advanced n b)
              × Holds (advanced n b) event.sequence_number event)
            same
            (
              f,
              subst (λ i. get_elem? (n.event_buffer.events ++ event ∷ []) i ≡ some event) (sym own)
                  (get_elem?-append_last n.event_buffer.events event),
            )
    ]

pub replicate_next-Effect :
    (P : ℕ → Type 0) (event : Event) (n n' : Node)
    → IsServing n
    → HasRoom n
    → QueueFits n
    → lookup n.next_event_seq n.event_queue ≡ some event
    → (n.successor ≡ none → P event.sequence_number)
    → replicate_next event n ≡ returns n'
    → Effect P (Queued n) n n'
unfolding replicate_next
replicate_next-Effect P event n n' v room w found p h =
    let (buffer, added, rest) = >>=-eq-returns (or_panic (add_event event n.event_buffer)) _ h in
    let add = or_panic-eq-returns (add_event event n.event_buffer) added in
    let f = added-Effect P event n buffer v room w found add in
    Effect-trans f.0 (
      replicate_event-Effect P (Queued n) event (advanced n buffer) n'
        (add_event-Serving event n.event_buffer buffer n.next_ack_seq n.ack_queue n.storage v room
          add)
        f.1 p rest)

-- A write at the HEAD puts its event at the end of the log and into the queue.
pub write-Effect :
    (P : ℕ → Type 0) (req : Request) (now : ℕ) (n n' : Node) (event : Event)
    → IsServing n
    → HasRoom n
    → n.next_event_seq ≤ length n.event_buffer.events
    → begin req now n ≡ waiting event n'
    → Effect P (λ x e. Unit {0}) n n'
unfolding start_replication buffer_event
write-Effect P req now n n' event v room paced h =
    let (_, e, after) = begin-logged req now n n' event h in
    let (appended, own) = logged-append req now n.event_buffer in
    let here : event.sequence_number ≡ length n.event_buffer.events =
      ground (arith, v.log.counted) in
    let log : (logged req now n.event_buffer).0 ≡ append event n.event_buffer = cc in
    let m : Node = record n {
      event_buffer = append event n.event_buffer;
      ack_sync = open_ack_channel event.sequence_number n.ack_sync;
      event_queue = insert event.sequence_number event n.event_queue;
    } in
    let same : m ≡ n' = ground arith in
    subst (Effect P (λ x e. Unit {0}) n) same (
      grows-Effect P (λ x e. Unit {0}) event n m v here (omega (arith, room)) tt refl refl refl refl
        refl (λ p. omega arith)
        (λ x q waits. ground (arith, lookup-insert event.sequence_number x event n.event_queue)))
