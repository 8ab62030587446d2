-- ===== src/Node/Progress.antt =====
-- pkg/server/server_ack.go, server.go: the acknowledgment of an event does not fail. Whatever the
-- event, it is applied without a panic, and the round ends, unless a client's channel is full.
use razpravljalnica.Base.{
  nat_eq, All, Option-cases, [], arith, inl, inr, none, refl, some, ◌+◌, ◌<◌, ◌∷◌, ◌≡◌, ◌≢◌, ◌⊎◌, ℕ,
  length, take, ◌++◌, length-take, All-take, ◌∙◌, All-get_elem?, zero, suc, sym, subst,
}
use razpravljalnica.Int64.{half}
use razpravljalnica.Dict.{lookup, insert}
use razpravljalnica.Outcome.{returns}
use razpravljalnica.Event.{
  Event, OpType, op_post, op_like, op_delete, op_update, op_create_user, op_create_topic,
}
use razpravljalnica.EventBuffer.{EventBuffer}
use razpravljalnica.EventBuffer.Invariant.{confirmed}
use razpravljalnica.AckSync.{EventApplicationResult, signal_ack_if_waiting}
use razpravljalnica.Subscriptions.Open.{IsOpen}
use razpravljalnica.Subscriptions.Open.Sends.{add_event_if_not_nil-IsOpen}
use razpravljalnica.Storage.Types.{Storage, Message, Reply}
use razpravljalnica.Storage.Messages.{post_message, update_message, delete_message, like_message}
use razpravljalnica.Storage.Users.{create_user}
use razpravljalnica.Storage.Topics.{create_topic}
use razpravljalnica.Node.State.{Node, acknowledge_event as acknowledge_rpc}
use razpravljalnica.Node.Apply.{with_message, message_result, apply_event}
use razpravljalnica.Node.Acks.{pass_on_ack, acknowledge_event, process_ack, process_next_acks}
use razpravljalnica.Node.Steps.{HasRoom}
use razpravljalnica.Node.Replay.{
  IsServing, transition, taken, next_event, process_ack-taken, process_ack-IsServing,
  acknowledge_event-transition,
}
use razpravljalnica.Node.Growth.{IsComplete, IsWithin}
use razpravljalnica.Node.Growth.Logs.{transition-IsWithin, replay-IsValid}

-- An application that returns, with the storage that it should leave, and the rest of the node as
-- it was but for what the subscribers are sent.
abbrev Applies : Event → Node → Storage → Type 0
Applies event n s =
    (m : Node) × (r : EventApplicationResult) × (apply_event event n ≡ returns (m, r))
    × (m.storage ≡ s)
    × (m.predecessor ≡ n.predecessor)
    × (m.ack_sync ≡ n.ack_sync)
    × IsOpen m.subscription_manager

with_message_lem :
    (event : Event) (n : Node) (s : Storage) (reply : Reply Message)
    → IsOpen n.subscription_manager
    → apply_event event n ≡ with_message event n (s, reply)
    → Applies event n s
with_message_lem event n s reply v e =
    let (sm, sent, v') =
      add_event_if_not_nil-IsOpen (some event) reply.value n.subscription_manager v in
    (
      record n { storage = s; subscription_manager = sm },
      message_result reply,
      rw (e, sent) refl,
      refl,
      refl,
      refl,
      v',
    )

apply_event_lem :
    (event : Event) (n : Node) (s : Storage)
    → IsOpen n.subscription_manager
    → transition event n.storage ≡ some s
    → Applies event n s
unfolding transition apply_event
apply_event_lem event n s v h = by_kind event.op refl
  where
    by_kind : (op : OpType) → event.op ≡ op → Applies event n s
    by_kind op_post e = elim (Option-cases event.post_message) [
      | inl missing ↦ absurd (ground arith)
      | inr (req, r) ↦
          elim (Option-cases
            (post_message req.topic_id req.user_id req.text event.event_at n.storage)) [
              | inl out ↦ absurd (ground arith)
              | inr ((s', reply), posted) ↦
                  let same : s' ≡ s = ground arith in
                  subst (Applies event n) same
                    (with_message_lem event n s' reply v (simp (apply_event, e, r, posted)))
            ]
    ]
    by_kind op_update e = elim (Option-cases event.update_message) [
      | inl missing ↦ absurd (ground arith)
      | inr (req, r) ↦
          let done_write =
            update_message req.topic_id req.user_id req.message_id req.text n.storage in
          let same : done_write.0 ≡ s = ground arith in
          subst (Applies event n) same
            (with_message_lem event n done_write.0 done_write.1 v (simp (apply_event, e, r)))
    ]
    by_kind op_delete e = elim (Option-cases event.delete_message) [
      | inl missing ↦ absurd (ground arith)
      | inr (req, r) ↦
          let done_write = delete_message req.topic_id req.user_id req.message_id n.storage in
          let same : done_write.0 ≡ s = ground arith in
          subst (Applies event n) same
            (with_message_lem event n done_write.0 done_write.1 v (simp (apply_event, e, r)))
    ]
    by_kind op_like e = elim (Option-cases event.like_message) [
      | inl missing ↦ absurd (ground arith)
      | inr (req, r) ↦
          let done_write = like_message req.topic_id req.user_id req.message_id n.storage in
          let same : done_write.0 ≡ s = ground arith in
          subst (Applies event n) same
            (with_message_lem event n done_write.0 done_write.1 v (simp (apply_event, e, r)))
    ]
    by_kind op_create_user e = elim (Option-cases event.create_user) [
      | inl missing ↦ absurd (ground arith)
      | inr (req, r) ↦
          let created = create_user req.name n.storage in
          (
            record n { storage = created.0 },
            record { message = none; user = created.1.value; topic = none; err = created.1.error },
            simp (apply_event, e, r),
            ground arith,
            refl,
            refl,
            v,
          )
    ]
    by_kind op_create_topic e = elim (Option-cases event.create_topic) [
      | inl missing ↦ absurd (ground arith)
      | inr (req, r) ↦
          let created = create_topic req.name n.storage in
          (
            record n { storage = created.0 },
            record { message = none; user = none; topic = created.1.value; err = created.1.error },
            simp (apply_event, e, r),
            ground arith,
            refl,
            refl,
            v,
          )
    ]

-- The event that is next in the queue can be applied to the storage.
next_transition :
    (event : Event) (n : Node)
    → IsServing n
    → All IsComplete n.event_buffer.events
    → HasRoom n
    → lookup n.next_ack_seq n.ack_queue ≡ some event
    → (s : Storage) × (transition event n.storage ≡ some s)
next_transition event n v complete room found =
    let k = confirmed n.event_buffer in
    let events = n.event_buffer.events in
    let long : length (take k events) ≡ k = length-take k events v.log.prefix in
    let (at, _, inside) = next_event event n v found in
    let (s, replayed, within) =
      replay-IsValid (take k events) (All-take IsComplete k events complete) (omega arith) in
    let same : s ≡ n.storage = cc in
    let (s', moved, _) =
      transition-IsWithin event (length (take k events)) n.storage
        (All-get_elem? IsComplete events n.next_ack_seq event complete at)
        (subst (λ x. IsWithin (length (take k events)) x) same within) (omega (arith, v.acked)) in
    (s', moved)

-- Where the event of a round goes after it is applied.
abbrev pub CanPass : Event → Node → Type 0
CanPass event n =
    (n.predecessor ≢ none)
    ⊎ ((lookup event.sequence_number n.ack_sync.ack_channels ≡ none)
        ⊎ (lookup event.sequence_number n.ack_sync.ack_channels ≡ some []))

pass_on_ack_returns :
    (event : Event) (r : EventApplicationResult) (n : Node)
    → CanPass event n
    → (m : Node) × (pass_on_ack event r n ≡ returns m)
      × (m.subscription_manager ≡ n.subscription_manager)
      × (m.predecessor ≡ n.predecessor)
      × (m.event_buffer ≡ n.event_buffer)
unfolding pass_on_ack signal_ack_if_waiting
pass_on_ack_returns event r n can = elim (Option-cases n.predecessor) [
  | inl head ↦ elim can [
    | inl not_head ↦ absurd (not_head head)
    | inr (inl closed) ↦ (n, ground arith, refl, refl, refl)
    | inr (inr waiting) ↦ (
      record n {
        ack_sync = record {
          ack_channels = insert event.sequence_number (r ∷ []) n.ack_sync.ack_channels;
        };
      },
      ground arith,
      refl,
      refl,
      refl,
    )
  ]
  | inr (address, pred) ↦ (
    record n { sent = n.sent ++ acknowledge_rpc address event.sequence_number ∷ [] },
    ground arith,
    refl,
    refl,
    refl,
  )
]

-- What the rounds of the loop need of a node, and keep.
pub record CanServe (n : Node) : Type 0 where
  pub serving : IsServing n
  pub channels : IsOpen n.subscription_manager
  pub complete : All IsComplete n.event_buffer.events
  pub room : HasRoom n

-- Where `CanServe` holds (the node serves, its subscriptions are in order, the events of its log
-- are complete and the log has room), the acknowledgment round of the next event returns, if the
-- node has a predecessor or no result waits in the channel of the event; then `CanServe` holds
-- again, with the same predecessor.
pub process_ack_returns :
    (event : Event) (n : Node)
    → CanServe n
    → lookup n.next_ack_seq n.ack_queue ≡ some event
    → CanPass event n
    → (m : Node) × (process_ack event n ≡ returns m) × CanServe m × (m.predecessor ≡ n.predecessor)
unfolding acknowledge_event
process_ack_returns event n v found can =
    let (s, moved) = next_transition event n v.serving v.complete v.room found in
    let (m, r, applied, _, pred, acks, open_after) =
      apply_event_lem event (taken n) s v.channels moved in
    let (m', passed, same, pred', _) = pass_on_ack_returns event r m (can_pass m pred acks) in
    let one : acknowledge_event event (taken n) ≡ returns m' =
      rw (acknowledge_event, applied) passed in
    let round : process_ack event n ≡ returns m' =
      process_ack-taken event n v.serving found ∙ one in
    let (_, buffer, _, _) = acknowledge_event-transition event (taken n) m' one in
    (
      m',
      round,
      record {
        serving = process_ack-IsServing event n m' v.serving found round;
        channels = subst IsOpen (sym same) open_after;
        complete = subst (λ (b : EventBuffer). All IsComplete b.events) (sym buffer) v.complete;
        room = subst (λ (b : EventBuffer). length b.events + 1 < half) (sym buffer) v.room;
      },
      pred' ∙ pred,
    )
  where
    can_pass :
        (m : Node) → m.predecessor ≡ n.predecessor → m.ack_sync ≡ n.ack_sync → CanPass event m
    can_pass m pred acks = rw (pred, acks) can

-- Where `CanServe` holds and the node has a predecessor, the acknowledgment loop returns, for any
-- fuel, and `CanServe` holds again.
pub process_next_acks_returns :
    (fuel : ℕ) (n : Node)
    → CanServe n
    → n.predecessor ≢ none
    → (m : Node) × (process_next_acks fuel n ≡ returns m) × CanServe m
unfolding process_next_acks
process_next_acks_returns zero n v pred = (n, refl, v)
process_next_acks_returns (suc fuel) n v pred =
    elim (Option-cases (lookup n.next_ack_seq n.ack_queue)) [
      | inl missing ↦ (n, rw (process_next_acks, missing) refl, v)
      | inr (event, found) ↦
          let (m, one, v', same) = process_ack_returns event n v found (inl pred) in
          let (m', rest, v'') = process_next_acks_returns fuel m v' λ e. pred (sym same ∙ e) in
          (m', rw (process_next_acks, found, one) rest, v'')
    ]
