-- ===== src/Node/Streams.antt =====
-- pkg/server: in every state that a node can reach, its subscriptions are in order, so that no event
-- is sent into a closed channel. Here, that the application of an event keeps them so.
pub mod Steps
pub mod Reached
use razpravljalnica.Base.{
  nat_eq, string_eq, Option-cases, arith, inl, inr, refl, some, subst, sym, ◌≡◌, ◌∙◌,
}
use razpravljalnica.Outcome.{returns, or_panic, >>=-eq-returns, or_panic-eq-returns}
use razpravljalnica.Event.{
  Event, OpType, op_post, op_like, op_delete, op_update, op_create_user, op_create_topic,
}
use razpravljalnica.AckSync.{EventApplicationResult}
use razpravljalnica.Subscriptions.{SubscriptionManager, add_event_if_not_nil}
use razpravljalnica.Subscriptions.Open.{IsOpen}
use razpravljalnica.Subscriptions.Open.Sends.{add_event_if_not_nil-IsOpen}
use razpravljalnica.Storage.Types.{Storage, Message, Reply}
use razpravljalnica.Storage.Messages.{post_message, update_message, delete_message, like_message}
use razpravljalnica.Node.State.{Node}
use razpravljalnica.Node.Apply.{with_message, apply_event}

abbrev pub IsStreaming : Node → Type 0
IsStreaming n = IsOpen n.subscription_manager

-- The subscriptions are as they were.
abbrev pub Same : Node → Node → Type 0
Same n n' = n'.subscription_manager ≡ n.subscription_manager

pub Same-IsStreaming : (n n' : Node) → Same n n' → IsStreaming n → IsStreaming n'
Same-IsStreaming n n' same v = subst IsOpen (sym same) v

-- Only a change of the tokens that are available.
pub tokens-IsOpen :
    (sm sm' : SubscriptionManager)
    → sm'.active_subscriptions ≡ sm.active_subscriptions
    → sm'.subscriptions_by_topic ≡ sm.subscriptions_by_topic
    → sm'.channels ≡ sm.channels
    → sm'.next_channel ≡ sm.next_channel
    → IsOpen sm
    → IsOpen sm'
tokens-IsOpen sm sm' active by_topic channels next_one v =
    let w : IsOpen (record sm' {
      active_subscriptions = sm.active_subscriptions;
      subscriptions_by_topic = sm.subscriptions_by_topic;
      channels = sm.channels;
      next_channel = sm.next_channel;
    }) =
      record { live = v.live; active = v.active; own = v.own; fresh = v.fresh } in
    subst IsOpen (cc) w

with_message-IsStreaming :
    (event : Event) (n n' : Node) (d : Storage × Reply Message) (r : EventApplicationResult)
    → with_message event n d ≡ returns (n', r)
    → IsStreaming n
    → IsStreaming n'
with_message-IsStreaming event n n' (s, reply) r h v =
    let (sm, sent, w) =
      add_event_if_not_nil-IsOpen (some event) reply.value n.subscription_manager v in
    let (t, told, after) =
      >>=-eq-returns
        (or_panic (add_event_if_not_nil (some event) reply.value n.subscription_manager)) _ h in
    let same : sm ≡ n'.subscription_manager = ground (arith, or_panic-eq-returns _ told) in
    subst IsOpen same w

pub apply_event-IsStreaming :
    (event : Event) (n n' : Node) (r : EventApplicationResult)
    → apply_event event n ≡ returns (n', r)
    → IsStreaming n
    → IsStreaming n'
unfolding apply_event
apply_event-IsStreaming event n n' r h v = by_kind event.op refl
  where
    by_kind : (op : OpType) → event.op ≡ op → IsStreaming n'
    by_kind op_post e = elim (Option-cases event.post_message) [
      | inl missing ↦ absurd (ground arith)
      | inr (req, q) ↦
          elim (Option-cases
            (post_message req.topic_id req.user_id req.text event.event_at n.storage)) [
              | inl out ↦ absurd (ground arith)
              | inr (d, did) ↦
                  with_message-IsStreaming event n n' d r (sym (simp (apply_event, e, q, did)) ∙ h)
                    v
            ]
    ]
    by_kind op_update e = elim (Option-cases event.update_message) [
      | inl missing ↦ absurd (ground arith)
      | inr (req, q) ↦
          with_message-IsStreaming event n n'
            (update_message req.topic_id req.user_id req.message_id req.text n.storage) r
            (sym (simp (apply_event, e, q)) ∙ h) v
    ]
    by_kind op_delete e = elim (Option-cases event.delete_message) [
      | inl missing ↦ absurd (ground arith)
      | inr (req, q) ↦
          with_message-IsStreaming event n n'
            (delete_message req.topic_id req.user_id req.message_id n.storage) r
            (sym (simp (apply_event, e, q)) ∙ h) v
    ]
    by_kind op_like e = elim (Option-cases event.like_message) [
      | inl missing ↦ absurd (ground arith)
      | inr (req, q) ↦
          with_message-IsStreaming event n n'
            (like_message req.topic_id req.user_id req.message_id n.storage) r
            (sym (simp (apply_event, e, q)) ∙ h) v
    ]
    by_kind op_create_user e = let same : Same n n' = ground arith in Same-IsStreaming n n' same v
    by_kind op_create_topic e = let same : Same n n' = ground arith in Same-IsStreaming n n' same v
