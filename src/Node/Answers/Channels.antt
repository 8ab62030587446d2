-- ===== src/Node/Answers/Channels.antt =====
-- pkg/server: writes, answers and acknowledgments, which open, close and fill the channels of writes.
use razpravljalnica.Base.{
  nat_eq, string_eq, ℕ, List, [], arith, inl, inr, some, ◌<◌, ◌≡◌, ◌∷◌, ◌⊎◌, Option-cases, suc,
  subst,
}
use razpravljalnica.Int64.{Int64}
use razpravljalnica.Dict.{lookup, insert, erase, lookup-insert, lookup-erase}
use razpravljalnica.Outcome.{returns, >>=-eq-returns}
use razpravljalnica.Event.{Event}
use razpravljalnica.EventBuffer.{append}
use razpravljalnica.EventBuffer.Invariant.{confirmed}
use razpravljalnica.AckSync.{
  EventApplicationResult, open_ack_channel, signal_ack_if_waiting, wait_for_ack, close_ack_channel,
}
use razpravljalnica.Node.State.{Node}
use razpravljalnica.Node.Apply.{apply_event}
use razpravljalnica.Node.Acks.{process_ack, acknowledge_event, pass_on_ack}
use razpravljalnica.Node.Replicate.{buffer_event, start_replication, finish_replication}
use razpravljalnica.Node.Writes.{waiting}
use razpravljalnica.Node.Replay.{
  IsServing, apply_event-transition, next_event, process_ack-taken, taken,
}
use razpravljalnica.Node.Safety.{begin-logged, logged-append}
use razpravljalnica.Node.Steps.{
  Request, begin, Step, writes, answers, receives_event, receives_ack, replicates, acknowledges,
  gets_predecessor, gets_successor, gets_subscription, subscribes, ends_subscription, streams,
}
use razpravljalnica.Node.Answers.{
  IsAnswered, Keeps, Keeps-IsAnswered, buffer_event-Keeps, buffer_ack-Keeps, replicate_next-Keeps,
  set_successor-Keeps, set_predecessor-Keeps, add_subscription_request-Keeps, subscribe_topic-Keeps,
  stream_event-Keeps, end_subscription-Keeps,
}

-- A write opens an empty channel.
begin-IsAnswered :
    (req : Request) (now : ℕ) (n n' : Node) (event : Event)
    → IsAnswered n
    → begin req now n ≡ waiting event n'
    → IsAnswered n'
unfolding start_replication open_ack_channel
begin-IsAnswered req now n n' event v h =
    let (_, e, after) = begin-logged req now n n' event h in
    let (appended, own) = logged-append req now n.event_buffer in
    let m : Node = record n {
      event_buffer = append event n.event_buffer;
      ack_sync = open_ack_channel event.sequence_number n.ack_sync;
    } in
    let same : buffer_event event m ≡ n' = ground arith in
    let opened : IsAnswered m = λ seq r rest found. v seq r rest (
      ground (
        arith,
        lookup-insert {V = List EventApplicationResult} event.sequence_number seq []
            n.ack_sync.ack_channels,
      )) in
    Keeps-IsAnswered m n' (subst (Keeps m) same (buffer_event-Keeps event m)) opened

-- A write that returns has found a result in its channel, which is closed then.
finish_replication_parts :
    (event : Event) (n n' : Node) (r : EventApplicationResult)
    → finish_replication event n ≡ returns (n', r)
    → (others : List EventApplicationResult) × (lookup event.sequence_number n.ack_sync.ack_channels
        ≡ some (r ∷ others))
      × (record n {
        ack_sync = record {
          ack_channels =
              erase event.sequence_number
                (insert event.sequence_number others n.ack_sync.ack_channels);
        };
      }
          ≡ n')
unfolding finish_replication wait_for_ack close_ack_channel
finish_replication_parts event n n' r h =
    elim (Option-cases (lookup event.sequence_number n.ack_sync.ack_channels)) [
      | inl e ↦ absurd (ground arith)
      | inr (held, e) ↦ by_list held e
    ]
  where
    by_list :
        (held : List EventApplicationResult)
        → lookup event.sequence_number n.ack_sync.ack_channels ≡ some held
        → (others : List EventApplicationResult) × (lookup event.sequence_number
              n.ack_sync.ack_channels
            ≡ some (r ∷ others))
          × (record n {
            ack_sync = record {
              ack_channels =
                  erase event.sequence_number
                    (insert event.sequence_number others n.ack_sync.ack_channels);
            };
          }
              ≡ n')
    by_list [] e = absurd (ground arith)
    by_list (x ∷ others) e = (others, ground arith, ground arith)

finish_replication-IsAnswered :
    (event : Event) (n n' : Node) (r : EventApplicationResult)
    → IsAnswered n
    → finish_replication event n ≡ returns (n', r)
    → IsAnswered n'
finish_replication-IsAnswered event n n' r v h =
    let (others, found, after) = finish_replication_parts event n n' r h in
    let own : Int64 = event.sequence_number in
    subst IsAnswered after (λ seq a rest q. v seq a rest (
      ground (
        arith,
        lookup-erase own seq (insert own others n.ack_sync.ack_channels),
        lookup-insert own seq others n.ack_sync.ack_channels,
      )))

-- The channels after an event is acknowledged: as they were, or with its result in its own.
pass_on_ack-channels :
    (event : Event) (result : EventApplicationResult) (n n' : Node)
    → pass_on_ack event result n ≡ returns n'
    → (n'.event_buffer ≡ n.event_buffer)
      × ((seq : Int64) (r : EventApplicationResult) (rest : List EventApplicationResult)
          → lookup seq n'.ack_sync.ack_channels ≡ some (r ∷ rest)
          → (lookup seq n.ack_sync.ack_channels ≡ some (r ∷ rest)) ⊎ (seq ≡ event.sequence_number))
unfolding pass_on_ack signal_ack_if_waiting
pass_on_ack-channels event result n n' h = (
  ground arith,
  λ seq r rest found.
      ground (arith, lookup-insert event.sequence_number seq (result ∷ []) n.ack_sync.ack_channels),
)

process_ack-IsAnswered :
    (event : Event) (n n' : Node)
    → IsServing n
    → IsAnswered n
    → lookup n.next_ack_seq n.ack_queue ≡ some event
    → process_ack event n ≡ returns n'
    → IsAnswered n'
unfolding acknowledge_event
process_ack-IsAnswered event n n' serving v found h seq r rest q =
    let (at, numbered, inside) = next_event event n serving found in
    let ((m, result), applied, passed) =
      >>=-eq-returns (apply_event event (taken n)) (λ d. pass_on_ack event d.1 d.0)
        (rw (← process_ack-taken event n serving found) h) in
    let (moved, parts) = apply_event-transition event (taken n) m result applied in
    let (buffer, channels) = pass_on_ack-channels event result m n' passed in
    let one_more : confirmed n'.event_buffer ≡ suc (confirmed n.event_buffer) =
      ground (arith, parts, serving.acked, serving.log.fits) in
    let acks : m.ack_sync ≡ n.ack_sync = ground (arith, parts) in
    let of_old : seq < confirmed n.event_buffer → seq < confirmed n'.event_buffer =
      λ old. omega (arith, one_more) in
    let of_own : seq ≡ event.sequence_number → seq < confirmed n'.event_buffer =
      λ own. omega (arith, one_more, serving.acked, numbered) in
    elim (channels seq r rest q) [
      | inl old ↦ of_old (v seq r rest (rw (← acks) old))
      | inr own ↦ of_own own
    ]

-- A step of a node keeps it so that every result in a channel is of a confirmed event.
pub Step-IsAnswered : {n n' : Node} → Step n n' → IsServing n → IsAnswered n → IsAnswered n'
Step-IsAnswered {n} {n'} (writes req now {event} room h) s v =
    begin-IsAnswered req now n n' event v h
Step-IsAnswered {n} {n'} (answers event {r} h) s v = finish_replication-IsAnswered event n n' r v h
Step-IsAnswered {n} {n'} (receives_event event) s v =
    Keeps-IsAnswered n n' (buffer_event-Keeps event n) v
Step-IsAnswered {n} {n'} (receives_ack seq h) s v =
    Keeps-IsAnswered n n' (buffer_ack-Keeps seq n n' h) v
Step-IsAnswered {n} {n'} (replicates {event} room found h) s v =
    Keeps-IsAnswered n n' (replicate_next-Keeps event n n' h) v
Step-IsAnswered {n} {n'} (acknowledges {event} found h) s v =
    process_ack-IsAnswered event n n' s v found h
Step-IsAnswered {n} {n'} (gets_predecessor pred) s v =
    Keeps-IsAnswered n n' (set_predecessor-Keeps pred n) v
Step-IsAnswered {n} {n'} (gets_successor succ reply h) s v =
    Keeps-IsAnswered n n' (set_successor-Keeps succ reply n n' h) v
Step-IsAnswered {n} {n'} (gets_subscription req token) s v =
    Keeps-IsAnswered n n' (add_subscription_request-Keeps req token n) v
Step-IsAnswered {n} {n'} (subscribes req {a = a} h) s v =
    Keeps-IsAnswered n n' (subscribe_topic-Keeps req n n' a h) v
Step-IsAnswered {n} {n'} (streams c {event = event} h) s v =
    Keeps-IsAnswered n n' (stream_event-Keeps c n n' event h) v
Step-IsAnswered {n} {n'} (ends_subscription token h) s v =
    Keeps-IsAnswered n n' (end_subscription-Keeps token n n' h) v

-- A write that is answered finds a result in its channel.
pub finish_replication-awaits :
    (event : Event) (n n' : Node) (r : EventApplicationResult)
    → IsAnswered n
    → finish_replication event n ≡ returns (n', r)
    → event.sequence_number < confirmed n.event_buffer
finish_replication-awaits event n n' r v h =
    let (others, found, after) = finish_replication_parts event n n' r h in
    v event.sequence_number r others found
