-- ===== src/Node/Safety.antt =====
-- pkg/server: every step of a node keeps its storage equal to the replay of the confirmed part of
-- its log, so two nodes that have confirmed the same events have the same storage.
use razpravljalnica.Base.{
  nat_eq, string_eq, ℕ, Option-cases, String, arith, inl, inr, refl, true, ◌≡◌, Bool-cases, List,
  Option, ap, none, some, subst, suc, sym, take, zero, ◌∙◌,
}
use razpravljalnica.Int64.{Int64, inc, sle}
use razpravljalnica.Dict.{lookup, erase}
use razpravljalnica.Outcome.{returns, ◌>>=◌, or_panic, >>=-eq-returns, or_panic-eq-returns}
use razpravljalnica.Event.{Event, NodeInfo}
use razpravljalnica.EventBuffer.{EventBuffer, append, new_event_buffer, add_event, get_event}
use razpravljalnica.EventBuffer.Invariant.{confirmed, new_event_buffer-IsLog}
use razpravljalnica.AckSync.{open_ack_channel, EventApplicationResult}
use razpravljalnica.Subscriptions.{MessageEvent, SubscriptionNodeRequest, SubscribeTopicRequest}
use razpravljalnica.Storage.Types.{new_storage}
use razpravljalnica.Node.State.{Node, new_server, require_head, is_head}
use razpravljalnica.Node.Acks.{buffer_ack}
use razpravljalnica.Node.Replicate.{
  buffer_event, replicate_event, replicate_next, start_replication, finish_replication,
}
use razpravljalnica.Node.Writes.{waiting, Answer}
use razpravljalnica.Node.Reads.{
  add_subscription_request, subscribe_topic, end_subscription, stream_event,
}
use razpravljalnica.Node.Neighbors.{
  set_predecessor, set_successor, acknowledge_range, resend_range, sync_with_successor,
  apply_all_unacknowledged_events,
}
use razpravljalnica.Node.Replay.{
  IsServing, replay, append-Serving, add_event-Serving, buffer_ack-IsServing, process_ack-IsServing,
}
use razpravljalnica.Node.Steps.{
  Request, post_message, update_message, delete_message, like_message, create_user, create_topic,
  begin, logged, HasRoom, Step, writes, answers, receives_event, receives_ack, replicates,
  acknowledges, gets_predecessor, gets_successor, gets_subscription, subscribes, Reach, start, next,
  ends_subscription, streams,
}

pub new_server-IsServing : (name address : String) → IsServing (new_server name address)
unfolding new_server new_event_buffer replay lookup
new_server-IsServing name address = record {
  log = new_event_buffer-IsLog;
  acked = refl;
  queued = λ k e q. cc;
  replayed = refl;
}

-- The event of a write takes the next number of the log, and stands at its end.
pub logged-append :
    (req : Request) (now : ℕ) (eb : EventBuffer)
    → ((logged req now eb).0 ≡ append (logged req now eb).1 eb)
      × ((logged req now eb).1.sequence_number ≡ eb.next_event_seq)
unfolding logged
logged-append (post_message req) now eb = (refl, refl)
logged-append (update_message req) now eb = (refl, refl)
logged-append (delete_message req) now eb = (refl, refl)
logged-append (like_message req) now eb = (refl, refl)
logged-append (create_user req) now eb = (refl, refl)
logged-append (create_topic req) now eb = (refl, refl)

pub begin-logged :
    (req : Request) (now : ℕ) (n n' : Node) (event : Event)
    → begin req now n ≡ waiting event n'
    → (is_head n ≡ true)
      × (event ≡ (logged req now n.event_buffer).1)
      × (n'
          ≡ start_replication event (record n { event_buffer = (logged req now n.event_buffer).0 }))
unfolding begin logged require_head
begin-logged (post_message req) now n n' event h = ground arith
begin-logged (update_message req) now n n' event h = ground arith
begin-logged (delete_message req) now n n' event h = ground arith
begin-logged (like_message req) now n n' event h = ground arith
begin-logged (create_user req) now n n' event h = ground arith
begin-logged (create_topic req) now n n' event h = ground arith

-- The parts that the promise speaks of are as they were.
record Keeps (n n' : Node) : Type 0 where
  same_buffer : n'.event_buffer ≡ n.event_buffer
  same_next : n'.next_ack_seq ≡ n.next_ack_seq
  same_queue : n'.ack_queue ≡ n.ack_queue
  same_storage : n'.storage ≡ n.storage

Keeps-IsServing : (n n' : Node) → Keeps n n' → IsServing n → IsServing n'
Keeps-IsServing n n' k v = rw (k.same_buffer, k.same_next, k.same_queue, k.same_storage) v

buffer_event-Keeps : (event : Event) (n : Node) → Keeps n (buffer_event event n)
unfolding buffer_event
buffer_event-Keeps event n = ground arith

buffer_event-IsServing : (event : Event) (n : Node) → IsServing n → IsServing (buffer_event event n)
buffer_event-IsServing event n v =
    Keeps-IsServing n (buffer_event event n) (buffer_event-Keeps event n) v

begin-IsServing :
    (req : Request) (now : ℕ) (n n' : Node) (event : Event)
    → IsServing n
    → HasRoom n
    → begin req now n ≡ waiting event n'
    → IsServing n'
unfolding start_replication
begin-IsServing req now n n' event v room h =
    let (_, e, after) = begin-logged req now n n' event h in
    let (appended, own) = logged-append req now n.event_buffer in
    let m : Node = record n {
      event_buffer = append event n.event_buffer;
      ack_sync = open_ack_channel event.sequence_number n.ack_sync;
    } in
    let here : event.sequence_number ≡ n.event_buffer.next_event_seq = ground arith in
    let same : buffer_event event m ≡ n' = ground arith in
    subst IsServing same (
      buffer_event-IsServing event m
        (append-Serving event n.event_buffer n.next_ack_seq n.ack_queue n.storage v here room))

finish_replication-Keeps :
    (event : Event) (n n' : Node) (r : EventApplicationResult)
    → finish_replication event n ≡ returns (n', r)
    → Keeps n n'
unfolding finish_replication
finish_replication-Keeps event n n' r h = ground arith

finish_replication-IsServing :
    (event : Event) (n n' : Node) (r : EventApplicationResult)
    → IsServing n
    → finish_replication event n ≡ returns (n', r)
    → IsServing n'
finish_replication-IsServing event n n' r v h =
    Keeps-IsServing n n' (finish_replication-Keeps event n n' r h) v

pub replicate_event-IsServing :
    (event : Event) (n n' : Node)
    → IsServing n
    → replicate_event event n ≡ returns n'
    → IsServing n'
unfolding replicate_event
replicate_event-IsServing event n n' v h = elim (Option-cases n.successor) [
  | inl tail ↦ buffer_ack-IsServing event.sequence_number n n' v (ground arith)
  | inr (address, e) ↦ let same : Keeps n n' = ground arith in Keeps-IsServing n n' same v
]

replicate_next-IsServing :
    (event : Event) (n n' : Node)
    → IsServing n
    → HasRoom n
    → replicate_next event n ≡ returns n'
    → IsServing n'
unfolding replicate_next
replicate_next-IsServing event n n' v room h =
    let (buffer, added, rest) = >>=-eq-returns (or_panic (add_event event n.event_buffer)) _ h in
    let m : Node = record n {
      event_queue = erase n.next_event_seq n.event_queue;
      next_event_seq = inc n.next_event_seq;
      event_buffer = buffer;
    } in
    replicate_event-IsServing event m n'
      (add_event-Serving event n.event_buffer buffer n.next_ack_seq n.ack_queue n.storage v room
        (or_panic-eq-returns (add_event event n.event_buffer) added))
      rest

pub acknowledge_range-IsServing :
    (fuel : ℕ) (seq last : Int64) (n n' : Node)
    → IsServing n
    → acknowledge_range fuel seq last n ≡ returns n'
    → IsServing n'
unfolding acknowledge_range
acknowledge_range-IsServing zero seq last n n' v h =
    let same : n ≡ n' = ground arith in subst IsServing same v
acknowledge_range-IsServing (suc fuel) seq last n n' v h = elim (Bool-cases (sle seq last)) [
  | inr over ↦ let same : n ≡ n' = ground arith in subst IsServing same v
  | inl more ↦
      let (m, one, rest) =
        >>=-eq-returns (buffer_ack seq n) (acknowledge_range fuel (inc seq) last) (ground arith) in
      acknowledge_range-IsServing fuel (inc seq) last m n' (buffer_ack-IsServing seq n m v one) rest
]

pub resend_range-IsServing :
    (fuel : ℕ) (seq last : Int64) (n n' : Node)
    → IsServing n
    → resend_range fuel seq last n ≡ returns n'
    → IsServing n'
unfolding resend_range
resend_range-IsServing zero seq last n n' v h =
    let same : n ≡ n' = ground arith in subst IsServing same v
resend_range-IsServing (suc fuel) seq last n n' v h = elim (Bool-cases (sle seq last)) [
  | inr over ↦ let same : n ≡ n' = ground arith in subst IsServing same v
  | inl more ↦
      let (event, got, sending) =
        >>=-eq-returns (or_panic (get_event seq n.event_buffer))
          (λ e. replicate_event e n >>= resend_range fuel (inc seq) last) (ground arith) in
      let (m, one, rest) =
        >>=-eq-returns (replicate_event event n) (resend_range fuel (inc seq) last) sending in
      resend_range-IsServing fuel (inc seq) last m n' (replicate_event-IsServing event n m v one)
        rest
]

sync_with_successor-IsServing :
    (reply : Option (Int64 × Int64)) (n n' : Node)
    → IsServing n
    → sync_with_successor reply n ≡ returns n'
    → IsServing n'
unfolding sync_with_successor
sync_with_successor-IsServing none n n' v h =
    let same : n ≡ n' = ground arith in subst IsServing same v
sync_with_successor-IsServing (some (received, acked)) n n' v h =
    let (m, acks, rest) = >>=-eq-returns _ _ h in
    resend_range-IsServing _ _ _ m n' (acknowledge_range-IsServing _ _ _ n m v acks) rest

pub set_successor-IsServing :
    (succ : Option NodeInfo) (reply : Option (Int64 × Int64)) (n n' : Node)
    → IsServing n
    → set_successor succ reply n ≡ returns n'
    → IsServing n'
unfolding set_successor apply_all_unacknowledged_events
set_successor-IsServing none reply n n' v h =
    acknowledge_range-IsServing _ _ _ (record n { successor = none }) n' v h
set_successor-IsServing (some succ) reply n n' v h =
    sync_with_successor-IsServing reply (record n { successor = some succ.address }) n' v h

set_predecessor-Keeps : (pred : Option NodeInfo) (n : Node) → Keeps n (set_predecessor pred n)
unfolding set_predecessor
set_predecessor-Keeps none n = ground arith
set_predecessor-Keeps (some pred) n = ground arith

add_subscription_request-Keeps :
    (req : SubscriptionNodeRequest) (token : Option String) (n : Node)
    → Keeps n (add_subscription_request req token n).0
unfolding add_subscription_request
add_subscription_request-Keeps req token n = ground arith

subscribe_topic-Keeps :
    (req : SubscribeTopicRequest) (n n' : Node) (a : Answer (List MessageEvent × ℕ))
    → subscribe_topic req n ≡ returns (n', a)
    → Keeps n n'
unfolding subscribe_topic
subscribe_topic-Keeps req n n' a h = ground arith

stream_event-Keeps :
    (c : ℕ) (n n' : Node) (event : Option MessageEvent)
    → stream_event c n ≡ returns (n', event)
    → Keeps n n'
unfolding stream_event
stream_event-Keeps c n n' event h = ground arith

end_subscription-Keeps :
    (token : String) (n n' : Node) → end_subscription token n ≡ returns n' → Keeps n n'
unfolding end_subscription
end_subscription-Keeps token n n' h = ground arith

-- Every step of a node keeps its storage equal to the replay of the confirmed part of its log, its
-- log numbered without gaps, and its queue of acknowledgments within the log.
pub Step-IsServing : {n n' : Node} → Step n n' → IsServing n → IsServing n'
Step-IsServing {n} {n'} (writes req now {event} room h) v =
    begin-IsServing req now n n' event v room h
Step-IsServing {n} {n'} (answers event {r} h) v = finish_replication-IsServing event n n' r v h
Step-IsServing {n} (receives_event event) v = buffer_event-IsServing event n v
Step-IsServing {n} {n'} (receives_ack seq h) v = buffer_ack-IsServing seq n n' v h
Step-IsServing {n} {n'} (replicates {event} room found h) v =
    replicate_next-IsServing event n n' v room h
Step-IsServing {n} {n'} (acknowledges {event} found h) v =
    process_ack-IsServing event n n' v found h
Step-IsServing {n} (gets_predecessor pred) v = Keeps-IsServing n _ (set_predecessor-Keeps pred n) v
Step-IsServing {n} {n'} (gets_successor succ reply h) v =
    set_successor-IsServing succ reply n n' v h
Step-IsServing {n} (gets_subscription req token) v =
    Keeps-IsServing n _ (add_subscription_request-Keeps req token n) v
Step-IsServing {n} {n'} (subscribes req {a = a} h) v =
    Keeps-IsServing n n' (subscribe_topic-Keeps req n n' a h) v
Step-IsServing {n} {n'} (streams c {event = event} h) v =
    Keeps-IsServing n n' (stream_event-Keeps c n n' event h) v
Step-IsServing {n} {n'} (ends_subscription token h) v =
    Keeps-IsServing n n' (end_subscription-Keeps token n n' h) v

-- In every state that a node can reach its storage is the replay of the confirmed part of its
-- log, the log is numbered without gaps, and the queue of acknowledgments holds events of the log
-- under their numbers.
pub Reach-IsServing : {name address : String} {n : Node} → Reach name address n → IsServing n
Reach-IsServing {name} {address} start = new_server-IsServing name address
Reach-IsServing (next r st) = Step-IsServing st (Reach-IsServing r)

-- Two nodes, in any states that they can reach, that have confirmed the same events hold the same
-- storage.
pub replicas_agree :
    {name address name' address' : String} {a b : Node}
    → Reach name address a
    → Reach name' address' b
    → take (confirmed a.event_buffer) a.event_buffer.events
      ≡ take (confirmed b.event_buffer) b.event_buffer.events
    → a.storage ≡ b.storage
replicas_agree {a = a} {b = b} ra rb same =
    let one : some a.storage ≡ some b.storage =
      sym (Reach-IsServing ra).replayed
      ∙ ap (λ events. replay events (some new_storage)) same
      ∙ (Reach-IsServing rb).replayed in
    cc
