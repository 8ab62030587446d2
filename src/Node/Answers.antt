-- ===== src/Node/Answers.antt =====
-- pkg/server: a result is in the channel of a write only if the event of the write is confirmed.
-- Here, the steps that leave the channels alone.
pub mod Channels
use razpravljalnica.Base.{
  nat_eq, string_eq, ℕ, List, Option, String, [], arith, inl, inr, none, some, ◌<◌, ◌≡◌, ◌≤◌, ◌∷◌,
  ◌⊎◌, Bool-cases, Option-cases, refl, suc, zero, subst, sym, true, ◌≢◌, ap,
}
use razpravljalnica.Int64.{Int64, inc, sle}
use razpravljalnica.Dict.{lookup, insert, erase, lookup-insert, lookup-erase}
use razpravljalnica.Outcome.{returns, ◌>>=◌, >>=-eq-returns, or_panic, or_panic-eq-returns}
use razpravljalnica.Event.{Event, NodeInfo}
use razpravljalnica.EventBuffer.{EventBuffer, append, add_event, get_event}
use razpravljalnica.EventBuffer.Invariant.{confirmed, add_event_cases}
use razpravljalnica.AckSync.{
  EventApplicationResult, AckSynchronization, open_ack_channel, signal_ack_if_waiting, wait_for_ack,
  close_ack_channel, new_ack_synchronization,
}
use razpravljalnica.Subscriptions.{MessageEvent, SubscriptionNodeRequest, SubscribeTopicRequest}
use razpravljalnica.Node.State.{Node, new_server}
use razpravljalnica.Node.Apply.{apply_event}
use razpravljalnica.Node.Acks.{buffer_ack, process_ack, acknowledge_event, pass_on_ack}
use razpravljalnica.Node.Replicate.{
  buffer_event, replicate_event, replicate_next, start_replication, finish_replication,
}
use razpravljalnica.Node.Writes.{waiting, Answer}
use razpravljalnica.Node.Reads.{
  add_subscription_request, subscribe_topic, end_subscription, stream_event,
}
use razpravljalnica.Node.Neighbors.{
  set_predecessor, set_successor, acknowledge_range, resend_range, sync_with_successor,
  apply_all_unacknowledged_events,
}
use razpravljalnica.Node.Replay.{
  IsServing, apply_event-transition, next_event, process_ack-taken, taken,
}
use razpravljalnica.Node.Safety.{begin-logged, logged-append, Reach-IsServing}
use razpravljalnica.Node.Steps.{
  Request, begin, logged, HasRoom, Step, writes, answers, receives_event, receives_ack, replicates,
  acknowledges, gets_predecessor, gets_successor, gets_subscription, subscribes, Reach, start, next,
  ends_subscription, streams,
}

abbrev pub IsAnswered : Node → Type 0
IsAnswered n =
    (seq : Int64) (r : EventApplicationResult) (rest : List EventApplicationResult)
    → lookup seq n.ack_sync.ack_channels ≡ some (r ∷ rest)
    → seq < confirmed n.event_buffer

-- The channels and what is confirmed are as they were.
pub record Keeps (n n' : Node) : Type 0 where
  pub same_acks : n'.ack_sync ≡ n.ack_sync
  pub same_confirmed : n'.event_buffer.last_confirmed ≡ n.event_buffer.last_confirmed

pub Keeps-IsAnswered : (n n' : Node) → Keeps n n' → IsAnswered n → IsAnswered n'
Keeps-IsAnswered n n' k v seq r rest h =
    let before = v seq r rest (rw (← k.same_acks) h) in rw k.same_confirmed before

Keeps-refl : (n : Node) → Keeps n n
Keeps-refl n = record { same_acks = refl; same_confirmed = refl }

Keeps-trans : {n m n' : Node} → Keeps n m → Keeps m n' → Keeps n n'
Keeps-trans a b = ground (arith, a, b)

pub buffer_event-Keeps : (event : Event) (n : Node) → Keeps n (buffer_event event n)
unfolding buffer_event
buffer_event-Keeps event n = ground arith

pub buffer_ack-Keeps : (seq : Int64) (n n' : Node) → buffer_ack seq n ≡ returns n' → Keeps n n'
unfolding buffer_ack
buffer_ack-Keeps seq n n' h = ground arith

pub replicate_event-Keeps :
    (event : Event) (n n' : Node) → replicate_event event n ≡ returns n' → Keeps n n'
unfolding replicate_event
replicate_event-Keeps event n n' h = elim (Option-cases n.successor) [
  | inl tail ↦ buffer_ack-Keeps event.sequence_number n n' (ground arith)
  | inr (address, e) ↦ ground arith
]

pub replicate_next-Keeps :
    (event : Event) (n n' : Node) → replicate_next event n ≡ returns n' → Keeps n n'
unfolding replicate_next
replicate_next-Keeps event n n' h =
    let (buffer, added, rest) = >>=-eq-returns (or_panic (add_event event n.event_buffer)) _ h in
    let m : Node = record n {
      event_queue = erase n.next_event_seq n.event_queue;
      next_event_seq = inc n.next_event_seq;
      event_buffer = buffer;
    } in
    let first : Keeps n m =
      ground (arith, add_event_cases event n.event_buffer buffer (or_panic-eq-returns _ added)) in
    Keeps-trans first (replicate_event-Keeps event m n' rest)

pub acknowledge_range-Keeps :
    (fuel : ℕ) (seq last : Int64) (n n' : Node)
    → acknowledge_range fuel seq last n ≡ returns n'
    → Keeps n n'
unfolding acknowledge_range
acknowledge_range-Keeps zero seq last n n' h = ground arith
acknowledge_range-Keeps (suc fuel) seq last n n' h = elim (Bool-cases (sle seq last)) [
  | inr over ↦ ground arith
  | inl more ↦
      let (m, one, rest) =
        >>=-eq-returns (buffer_ack seq n) (acknowledge_range fuel (inc seq) last) (ground arith) in
      Keeps-trans (buffer_ack-Keeps seq n m one)
        (acknowledge_range-Keeps fuel (inc seq) last m n' rest)
]

pub resend_range-Keeps :
    (fuel : ℕ) (seq last : Int64) (n n' : Node)
    → resend_range fuel seq last n ≡ returns n'
    → Keeps n n'
unfolding resend_range
resend_range-Keeps zero seq last n n' h = ground arith
resend_range-Keeps (suc fuel) seq last n n' h = elim (Bool-cases (sle seq last)) [
  | inr over ↦ ground arith
  | inl more ↦
      let (event, got, sending) =
        >>=-eq-returns (or_panic (get_event seq n.event_buffer))
          (λ e. replicate_event e n >>= resend_range fuel (inc seq) last) (ground arith) in
      let (m, one, rest) =
        >>=-eq-returns (replicate_event event n) (resend_range fuel (inc seq) last) sending in
      Keeps-trans (replicate_event-Keeps event n m one)
        (resend_range-Keeps fuel (inc seq) last m n' rest)
]

pub set_successor-Keeps :
    (succ : Option NodeInfo) (reply : Option (Int64 × Int64)) (n n' : Node)
    → set_successor succ reply n ≡ returns n'
    → Keeps n n'
unfolding set_successor apply_all_unacknowledged_events sync_with_successor
set_successor-Keeps none reply n n' h =
    Keeps-trans (record { same_acks = refl; same_confirmed = refl })
      (acknowledge_range-Keeps _ _ _ (record n { successor = none }) n' h)
set_successor-Keeps (some succ) none n n' h = ground arith
set_successor-Keeps (some succ) (some (received, acked)) n n' h =
    let c : Node = record n { successor = some succ.address } in
    let (m, acks, rest) = >>=-eq-returns (acknowledge_range _ _ _ c) (resend_range _ _ _) h in
    let first : Keeps n c = record { same_acks = refl; same_confirmed = refl } in
    Keeps-trans (Keeps-trans first (acknowledge_range-Keeps _ _ _ c m acks))
      (resend_range-Keeps _ _ _ m n' rest)

pub set_predecessor-Keeps : (pred : Option NodeInfo) (n : Node) → Keeps n (set_predecessor pred n)
unfolding set_predecessor
set_predecessor-Keeps none n = ground arith
set_predecessor-Keeps (some pred) n = ground arith

pub add_subscription_request-Keeps :
    (req : SubscriptionNodeRequest) (token : Option String) (n : Node)
    → Keeps n (add_subscription_request req token n).0
unfolding add_subscription_request
add_subscription_request-Keeps req token n = ground arith

pub subscribe_topic-Keeps :
    (req : SubscribeTopicRequest) (n n' : Node) (a : Answer (List MessageEvent × ℕ))
    → subscribe_topic req n ≡ returns (n', a)
    → Keeps n n'
unfolding subscribe_topic
subscribe_topic-Keeps req n n' a h = ground arith

pub stream_event-Keeps :
    (c : ℕ) (n n' : Node) (event : Option MessageEvent)
    → stream_event c n ≡ returns (n', event)
    → Keeps n n'
unfolding stream_event
stream_event-Keeps c n n' event h = ground arith

pub end_subscription-Keeps :
    (token : String) (n n' : Node) → end_subscription token n ≡ returns n' → Keeps n n'
unfolding end_subscription
end_subscription-Keeps token n n' h = ground arith
