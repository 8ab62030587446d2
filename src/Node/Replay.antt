-- ===== src/Node/Replay.antt =====
-- pkg/server: the storage of a node is a replicated state machine. What an event does to a storage
-- alone, the replay of a log, and that a node's storage is always the replay of the confirmed part
-- of its log (`applyEvent` in server.go, `processNextAcks` in server_ack.go).

use razpravljalnica.Base.{
  nat_eq, List, Option, [], none, option_map, some, ◌++◌, ◌∷◌, ◌≡◌, arith, get_elem?, take, length,
  lt_of_get_elem?, suc, ◌<◌, Option-cases, ap, inl, inr, subst, sym, take-suc, zero, ℕ, ◌∙◌, ◌⊎◌,
  get_elem?-append_left, take-append_le, ◌+◌, refl,
}
use razpravljalnica.Int64.{half, Int64, inc}
use razpravljalnica.Dict.{lookup, erase, lookup-erase, insert, lookup-insert, Dict}
use razpravljalnica.Outcome.{returns, >>=-eq-returns}
use razpravljalnica.Event.{
  Event, op_post, op_like, op_delete, op_update, op_create_user, op_create_topic,
}
use razpravljalnica.EventBuffer.{append, add_event, get_event, EventBuffer}
use razpravljalnica.EventBuffer.Invariant.{
  IsLog, confirmed, acknowledge_event_lem, confirm-IsLog, append-IsLog, add_event_cases,
}
use razpravljalnica.AckSync.{EventApplicationResult}
use razpravljalnica.Storage.Types.{Storage, Message, Reply, new_storage}
use razpravljalnica.Storage.Messages.{post_message, update_message, delete_message, like_message}
use razpravljalnica.Storage.Users.{create_user}
use razpravljalnica.Storage.Topics.{create_topic}
use razpravljalnica.Node.State.{Node}
use razpravljalnica.Node.Apply.{apply_event}
use razpravljalnica.Node.Acks.{
  pass_on_ack, acknowledge_event, process_ack, buffer_ack, process_next_acks,
}

-- What an event makes of a storage; `none` where the application of the event panics.
unfoldable pub transition : Event → Storage → Option Storage
transition event s = elim event.op [
  | op_post ↦ elim event.post_message [
    | none ↦ none
    | some req ↦
        option_map (λ (r : Storage × Reply Message). r.0)
          (post_message req.topic_id req.user_id req.text event.event_at s)
  ]
  | op_update ↦
      option_map (λ req. (update_message req.topic_id req.user_id req.message_id req.text s).0)
        event.update_message
  | op_delete ↦
      option_map (λ req. (delete_message req.topic_id req.user_id req.message_id s).0)
        event.delete_message
  | op_like ↦
      option_map (λ req. (like_message req.topic_id req.user_id req.message_id s).0)
        event.like_message
  | op_create_user ↦ option_map (λ req. (create_user req.name s).0) event.create_user
  | op_create_topic ↦ option_map (λ req. (create_topic req.name s).0) event.create_topic
]

-- The storage after a whole log, from an empty one.
unfoldable pub replay : List Event → Option Storage → Option Storage
replay [] s = s
replay (event ∷ events) s = replay events (elim s [ none ↦ none | some s' ↦ transition event s' ])

replay-snoc :
    (events : List Event) (event : Event) (start : Option Storage) (s : Storage)
    → replay events start ≡ some s
    → replay (events ++ event ∷ []) start ≡ transition event s
unfolding replay
replay-snoc [] event start s h = rw h
replay-snoc (e ∷ events) event start s h = replay-snoc events event _ s h

pub replay-append :
    (xs ys : List Event) (start : Option Storage)
    → replay (xs ++ ys) start ≡ replay ys (replay xs start)
unfolding replay
replay-append [] ys start = refl
replay-append (x ∷ xs) ys start = replay-append xs ys _

-- Applying an event changes the storage by its transition, and of the node nothing else but what
-- its subscribers are sent.
pub apply_event-transition :
    (event : Event) (n n' : Node) (r : EventApplicationResult)
    → apply_event event n ≡ returns (n', r)
    → (transition event n.storage ≡ some n'.storage)
      × (n' ≡ record n { storage = n'.storage; subscription_manager = n'.subscription_manager })
unfolding apply_event transition
apply_event-transition event n n' r h = ground arith

-- What a node promises of its log, its queue of acknowledgments and its storage.
pub record Serving (eb : EventBuffer) (next : Int64) (queue : Dict Int64 Event) (s : Storage)
    : Type 0 where
  pub log : IsLog eb
  pub acked : next ≡ confirmed eb
  pub queued :
      (k : Int64) (event : Event) → lookup k queue ≡ some event → get_elem? eb.events k ≡ some event
  pub replayed : replay (take (confirmed eb) eb.events) (some new_storage) ≡ some s

abbrev pub IsServing : Node → Type 0
IsServing n = Serving n.event_buffer n.next_ack_seq n.ack_queue n.storage

pass_on_ack_lem :
    (event : Event) (r : EventApplicationResult) (n n' : Node)
    → pass_on_ack event r n ≡ returns n'
    → n' ≡ record n { ack_sync = n'.ack_sync; sent = n'.sent }
unfolding pass_on_ack
pass_on_ack_lem event r n n' h = ground arith

-- An acknowledged event is applied, and of the rest of the node only what it sends has changed.
pub acknowledge_event-transition :
    (event : Event) (n n' : Node)
    → acknowledge_event event n ≡ returns n'
    → (transition event n.storage ≡ some n'.storage)
      × (n'.event_buffer ≡ n.event_buffer)
      × (n'.ack_queue ≡ n.ack_queue)
      × (n'.next_ack_seq ≡ n.next_ack_seq)
unfolding acknowledge_event
acknowledge_event-transition event n n' h =
    let ((m, r), applied, passed) =
      >>=-eq-returns (apply_event event n) (λ q. pass_on_ack event q.1 q.0) h in
    ground (arith, apply_event-transition event n m r applied, pass_on_ack_lem event r m n' passed)

-- The node at the start of a round: the event is off the queue and confirmed in the log.
abbrev pub taken : Node → Node
taken n = record n {
  ack_queue = erase n.next_ack_seq n.ack_queue;
  next_ack_seq = inc n.next_ack_seq;
  event_buffer = record n.event_buffer { last_confirmed = n.next_ack_seq };
}

pub next_event :
    (event : Event) (n : Node)
    → IsServing n
    → lookup n.next_ack_seq n.ack_queue ≡ some event
    → (get_elem? n.event_buffer.events n.next_ack_seq ≡ some event)
      × (event.sequence_number ≡ n.next_ack_seq)
      × (n.next_ack_seq < length n.event_buffer.events)
next_event event n v found =
    let at = v.queued n.next_ack_seq event found in
    (
      at,
      v.log.numbered n.next_ack_seq event at,
      lt_of_get_elem? n.event_buffer.events n.next_ack_seq event at,
    )

-- A round takes the event at the head of the queue off it, confirms it in the log and applies it.
pub process_ack-taken :
    (event : Event) (n : Node)
    → IsServing n
    → lookup n.next_ack_seq n.ack_queue ≡ some event
    → process_ack event n ≡ acknowledge_event event (taken n)
unfolding process_ack
process_ack-taken event n v found =
    let (at, numbered, inside) = next_event event n v found in
    let (e', _, confirmed_one) =
      acknowledge_event_lem n.next_ack_seq n.event_buffer v.log v.acked inside in
    rw (numbered, confirmed_one)

-- A round of the acknowledgment loop keeps the storage equal to the replay of what is confirmed.
pub process_ack-IsServing :
    (event : Event) (n n' : Node)
    → IsServing n
    → lookup n.next_ack_seq n.ack_queue ≡ some event
    → process_ack event n ≡ returns n'
    → IsServing n'
process_ack-IsServing event n n' v found h =
    let (at, numbered, inside) = next_event event n v found in
    let (moved, buffer, queue, next) =
      acknowledge_event-transition event (taken n) n'
        (rw (← process_ack-taken event n v found) h) in
    let one_more : confirmed n'.event_buffer ≡ suc (confirmed n.event_buffer) =
      ground (arith, v.acked, v.log.fits) in
    record {
      log =
          subst IsLog (sym buffer)
            (confirm-IsLog n.next_ack_seq n.event_buffer v.log v.acked inside);
      acked = ground (arith, v.acked, v.log.fits);
      queued = λ k e q. ground (arith, v.queued k e, lookup-erase n.next_ack_seq k n.ack_queue);
      replayed =
          rw
            (
              one_more,
              ap (λ (b : EventBuffer). b.events) buffer,
              take-suc n.event_buffer.events (confirmed n.event_buffer) event
                  (subst (λ i. get_elem? n.event_buffer.events i ≡ some event) v.acked at),
            )
            (replay-snoc (take (confirmed n.event_buffer) n.event_buffer.events) event
                (some new_storage) n.storage v.replayed
              ∙ moved);
    }

-- The two ways in which a round of the loop begins.
pub loop_stops :
    (fuel : ℕ) (n n' : Node)
    → lookup n.next_ack_seq n.ack_queue ≡ none
    → process_next_acks (suc fuel) n ≡ returns n'
    → n ≡ n'
unfolding process_next_acks
loop_stops fuel n n' missing h = ground arith

pub loop_goes_on :
    (fuel : ℕ) (n n' : Node) (event : Event)
    → lookup n.next_ack_seq n.ack_queue ≡ some event
    → process_next_acks (suc fuel) n ≡ returns n'
    → (m : Node) × (process_ack event n ≡ returns m) × (process_next_acks fuel m ≡ returns n')
unfolding process_next_acks
loop_goes_on fuel n n' event found h =
    >>=-eq-returns (process_ack event n) (process_next_acks fuel) (ground arith)

-- For any fuel, an acknowledgment loop that returns leaves a serving node serving: its storage is
-- the replay of what is confirmed.
pub process_next_acks-IsServing :
    (fuel : ℕ) (n n' : Node) → IsServing n → process_next_acks fuel n ≡ returns n' → IsServing n'
unfolding process_next_acks
process_next_acks-IsServing zero n n' v h =
    let same : n ≡ n' = ground arith in subst IsServing same v
process_next_acks-IsServing (suc fuel) n n' v h =
    elim (Option-cases (lookup n.next_ack_seq n.ack_queue)) [
      | inl missing ↦ subst IsServing (loop_stops fuel n n' missing h) v
      | inr (event, found) ↦
          let (m, one, rest) = loop_goes_on fuel n n' event found h in
          process_next_acks-IsServing fuel m n' (process_ack-IsServing event n m v found one) rest
    ]

pub buffer_ack_cases :
    (seq : Int64) (n n' : Node)
    → IsServing n
    → buffer_ack seq n ≡ returns n'
    → (n ≡ n')
      ⊎ ((event : Event) × (get_elem? n.event_buffer.events seq ≡ some event)
          × (record n { ack_queue = insert event.sequence_number event n.ack_queue } ≡ n'))
unfolding buffer_ack get_event
buffer_ack_cases seq n n' v h = ground arith

queue-IsServing :
    (k : Int64) (event : Event) (n : Node)
    → IsServing n
    → get_elem? n.event_buffer.events k ≡ some event
    → IsServing (record n { ack_queue = insert event.sequence_number event n.ack_queue })
queue-IsServing k event n v at = record {
  log = v.log;
  acked = v.acked;
  queued = λ j e q. ground (
    arith,
    v.queued j e,
    v.log.numbered k event at,
    lookup-insert event.sequence_number j event n.ack_queue,
  );
  replayed = v.replayed;
}

-- An acknowledgment that arrives in any order keeps what the node promises.
pub buffer_ack-IsServing :
    (seq : Int64) (n n' : Node) → IsServing n → buffer_ack seq n ≡ returns n' → IsServing n'
buffer_ack-IsServing seq n n' v h = elim (buffer_ack_cases seq n n' v h) [
  | inl same ↦ subst IsServing same v
  | inr (event, at, after) ↦ subst IsServing after (queue-IsServing seq event n v at)
]

-- An event at the end of the log is not yet confirmed, so the storage does not change.
pub append-Serving :
    (event : Event) (eb : EventBuffer) (next : Int64) (queue : Dict Int64 Event) (s : Storage)
    → Serving eb next queue s
    → event.sequence_number ≡ eb.next_event_seq
    → length eb.events + 1 < half
    → Serving (append event eb) next queue s
append-Serving event eb next queue s v own room = record {
  log = append-IsLog event eb v.log own room;
  acked = v.acked;
  queued = λ k e q.
      let at = v.queued k e q in
      get_elem?-append_left eb.events (event ∷ []) k (lt_of_get_elem? eb.events k e at) ∙ at;
  replayed = rw (take-append_le eb.events (event ∷ []) (confirmed eb) v.log.prefix) v.replayed;
}

-- An event from the predecessor keeps what the node promises, or makes it panic on a gap.
pub add_event-Serving :
    (event : Event) (eb eb' : EventBuffer) (next : Int64) (queue : Dict Int64 Event) (s : Storage)
    → Serving eb next queue s
    → length eb.events + 1 < half
    → add_event event eb ≡ some eb'
    → Serving eb' next queue s
add_event-Serving event eb eb' next queue s v room h = elim (add_event_cases event eb eb' h) [
  | inl same ↦ subst (λ b. Serving b next queue s) same v
  | inr (own, after) ↦
      subst (λ b. Serving b next queue s) after (append-Serving event eb next queue s v own room)
]
