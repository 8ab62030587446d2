-- ===== src/Chain/Moves.antt =====
-- pkg/server: every step of a node keeps a chain in order.
use razpravljalnica.Base.{
  nat_eq, string_eq, ℕ, List, String, arith, none, some, true, ◌<◌, ◌≡◌, refl, subst, Option,
}
use razpravljalnica.Int64.{Int64, half, sle}
use razpravljalnica.Outcome.{returns, >>=-eq-returns}
use razpravljalnica.Event.{Event, NodeInfo}
use razpravljalnica.AckSync.{EventApplicationResult}
use razpravljalnica.Subscriptions.{MessageEvent, SubscriptionNodeRequest, SubscribeTopicRequest}
use razpravljalnica.Node.State.{Node, replicate_event, is_head, set_successor_connection}
use razpravljalnica.Node.Replicate.{buffer_event, finish_replication}
use razpravljalnica.Node.Writes.{Answer}
use razpravljalnica.Node.Reads.{
  add_subscription_request, subscribe_topic, end_subscription, stream_event,
}
use razpravljalnica.Node.Neighbors.{
  set_successor, sync_with_successor, apply_all_unacknowledged_events, acknowledge_range,
  resend_range,
}
use razpravljalnica.Node.Safety.{
  Step-IsServing, begin-logged, acknowledge_range-IsServing, set_successor-IsServing,
}
use razpravljalnica.Node.Steps.{
  Step as NodeStep, writes, answers, receives_event, receives_ack, replicates, acknowledges,
  gets_predecessor, gets_successor, gets_subscription, subscribes, ends_subscription, streams,
}
use razpravljalnica.Chain.{System, Sent, MaySucceed, Allowed}
use razpravljalnica.Chain.Links.{Effect, Effect-trans, Same}
use razpravljalnica.Chain.Effects.{buffer_ack-Effect, acknowledge_range-Effect, resend_range-Effect}
use razpravljalnica.Chain.Confirms.{process_ack-Effect}
use razpravljalnica.Chain.Growing.{buffer_event-Effect, write-Effect, replicate_next-Effect}
use razpravljalnica.Chain.Invariant.{
  IsChain, Moved, IsChain-Moved, Effect-Moved, Same-Moved, set_predecessor-Moved,
  set_successor_connection-Moved,
}
use razpravljalnica.Chain.Arrivals.{arrived, acked, arrived-known, answer-confirmed}

finish_replication-Same :
    (event : Event) (n n' : Node) (r : EventApplicationResult)
    → finish_replication event n ≡ returns (n', r)
    → Same n n'
unfolding finish_replication
finish_replication-Same event n n' r h = ground arith

add_subscription_request-Same :
    (req : SubscriptionNodeRequest) (token : Option String) (n : Node)
    → Same n (add_subscription_request req token n).0
unfolding add_subscription_request
add_subscription_request-Same req token n = ground arith

subscribe_topic-Same :
    (req : SubscribeTopicRequest) (n n' : Node) (a : Answer (List MessageEvent × ℕ))
    → subscribe_topic req n ≡ returns (n', a)
    → Same n n'
unfolding subscribe_topic
subscribe_topic-Same req n n' a h = ground arith

stream_event-Same :
    (c : ℕ) (n n' : Node) (event : Option MessageEvent)
    → stream_event c n ≡ returns (n', event)
    → Same n n'
unfolding stream_event
stream_event-Same c n n' event h = ground arith

end_subscription-Same :
    (token : String) (n n' : Node) → end_subscription token n ≡ returns n' → Same n n'
unfolding end_subscription
end_subscription-Same token n n' h = ground arith

head_none : (n : Node) → is_head n ≡ true → n.predecessor ≡ none
unfolding is_head
head_none n h = ground arith

module _ (address : ℕ → String) (distinct : (i j : ℕ) → address i ≡ address j → i ≡ j) where
  receives-Moved :
      (s : System) (i : ℕ) (event : Event)
      → s.alive i ≡ true
      → IsChain address s
      → Sent address s (replicate_event (address i) event)
      → Moved address s i (buffer_event event (s.nodes i))
  receives-Moved s i event here v sent =
      let n : Node = s.nodes i in
      let (small, holds, (j, order, live)) = arrived address distinct s i event v sent in
      Effect-Moved address {P = λ x. ⊥} s i n (buffer_event event n)
        (IsChain-Moved address s i here v)
        (Step-IsServing (receives_event event) (v.backed i).serving)
        (buffer_event-Effect _ event n (v.backed i).serving small
          (arrived-known address distinct s i j event v here order live (holds j order live)))
        (λ m x order_m live_m p. absurd p)
        (λ m x e order_m live_m (at, same). rw (at, same) (holds m order_m live_m))

  succeeds-Moved :
      (s : System) (i : ℕ) (n n' : Node) (succ : Option NodeInfo) (reply : Option (Int64 × Int64))
      → IsChain address s
      → Moved address s i n
      → MaySucceed address s i succ reply
      → set_successor succ reply n ≡ returns n'
      → Moved address s i n'
  unfolding set_successor sync_with_successor apply_all_unacknowledged_events
      set_successor_connection
  succeeds-Moved s i n n' none reply v m clear h =
      let c : Node = set_successor_connection none n in
      let mc : Moved address s i c =
        set_successor_connection-Moved address s i n none reply m clear in
      Effect-Moved address {P = λ x. Unit {0}} {E = λ x e. ⊥} s i c n' mc
        (set_successor-IsServing none reply n n' m.backed.serving h)
        (acknowledge_range-Effect _ _ _ _ _ c n' mc.backed.serving (λ x small le. tt) h)
        (λ j x order live p. absurd (cc (clear j order))) (λ j x e order live p. absurd p)
  succeeds-Moved s i n n' (some p) none v m may h =
      let c : Node = set_successor_connection (some p) n in
      let same : c ≡ n' = ground arith in
      subst (Moved address s i) same
        (set_successor_connection-Moved address s i n (some p) none m may)
  succeeds-Moved s i n n' (some p) (some (received, last)) v m may h =
      let c : Node = set_successor_connection (some p) n in
      let mc : Moved address s i c =
        set_successor_connection-Moved address s i n (some p) (some (received, last)) m may in
      let (d, acks, rest) = >>=-eq-returns (acknowledge_range _ _ _ c) (resend_range _ _ _) h in
      let f : Effect (λ x. (x < half) × (sle x last ≡ true)) (λ x e. ⊥) c d =
        acknowledge_range-Effect _ _ _ _ last c d mc.backed.serving (λ x small le. (small, le))
          acks in
      let g =
        resend_range-Effect _ _ _ _ _ d n' p.address
          (acknowledge_range-IsServing _ _ _ c d mc.backed.serving acks) f.same_successor rest in
      Effect-Moved address s i c n' mc
        (set_successor-IsServing (some p) (some (received, last)) n n' m.backed.serving h)
        (Effect-trans f g)
        (λ j x order live (small, le).
          answer-confirmed address distinct s i p received last v may j x order live small le)
        (λ j x e order live q. absurd q)

  -- Every step that the chain lets a node make keeps what the chain is.
  pub Step-Moved :
      (s : System) (i : ℕ) (n' : Node)
      → s.alive i ≡ true
      → IsChain address s
      → (step : NodeStep (s.nodes i) n') → Allowed address s i step
      → Moved address s i n'
  Step-Moved s i n' here v (writes req now {event} room h) allowed =
      let n : Node = s.nodes i in
      let first : n.predecessor ≡ none = head_none n (begin-logged req now n n' event h).0 in
      Effect-Moved address {P = λ x. ⊥} s i n n' (IsChain-Moved address s i here v)
        (Step-IsServing (writes req now room h) (v.backed i).serving)
        (write-Effect _ req now n n' event (v.backed i).serving room (v.backed i).fits.0 h)
        (λ j x order live p. absurd p)
        (λ j x e order live q. absurd (cc ((v.placed i).first first j order)))
  Step-Moved s i n' here v (answers event {r} h) allowed =
      Same-Moved address s i (s.nodes i) n' (IsChain-Moved address s i here v)
        (Step-IsServing (answers event h) (v.backed i).serving)
        (finish_replication-Same event (s.nodes i) n' r h)
  Step-Moved s i n' here v (receives_event event) allowed = receives-Moved s i event here v allowed
  Step-Moved s i n' here v (receives_ack seq h) allowed =
      Effect-Moved address {P = λ x. x ≡ seq} {E = λ x e. ⊥} s i (s.nodes i) n'
        (IsChain-Moved address s i here v)
        (Step-IsServing (receives_ack seq h) (v.backed i).serving)
        (buffer_ack-Effect _ _ seq (s.nodes i) n' (v.backed i).serving (λ inside. refl) h)
        (λ j x order live p. rw p (acked address distinct s i seq v allowed j order live))
        (λ j x e order live q. absurd q)
  Step-Moved s i n' here v (replicates {event} room found h) allowed =
      Effect-Moved address {P = λ x. (s.nodes i).successor ≡ none} s i (s.nodes i) n'
        (IsChain-Moved address s i here v)
        (Step-IsServing (replicates room found h) (v.backed i).serving)
        (replicate_next-Effect _ event (s.nodes i) n' (v.backed i).serving room (v.backed i).fits
          found (λ tail. tail) h)
        (λ j x order live tail. absurd (cc ((v.placed i).last tail j order)))
        (λ j x e order live q. (v.linked j i order live here).queued x e q)
  Step-Moved s i n' here v (acknowledges {event} found h) allowed =
      Effect-Moved address {E = λ x e. ⊥} s i (s.nodes i) n' (IsChain-Moved address s i here v)
        (Step-IsServing (acknowledges found h) (v.backed i).serving)
        (process_ack-Effect _ event (s.nodes i) n' (v.backed i).serving found h)
        (λ j x order live p. rw p ((v.linked i j order here live).acked _ event found))
        (λ j x e order live q. absurd q)
  Step-Moved s i n' here v (gets_predecessor pred) allowed =
      set_predecessor-Moved address s i (s.nodes i) pred (IsChain-Moved address s i here v) allowed
  Step-Moved s i n' here v (gets_successor succ reply h) allowed =
      succeeds-Moved s i (s.nodes i) n' succ reply v (IsChain-Moved address s i here v) allowed h
  Step-Moved s i n' here v (gets_subscription req token) allowed =
      Same-Moved address s i (s.nodes i) n' (IsChain-Moved address s i here v)
        (Step-IsServing (gets_subscription req token) (v.backed i).serving)
        (add_subscription_request-Same req token (s.nodes i))
  Step-Moved s i n' here v (subscribes req {a = a} h) allowed =
      Same-Moved address s i (s.nodes i) n' (IsChain-Moved address s i here v)
        (Step-IsServing (subscribes req h) (v.backed i).serving)
        (subscribe_topic-Same req (s.nodes i) n' a h)
  Step-Moved s i n' here v (streams c {event = event} h) allowed =
      Same-Moved address s i (s.nodes i) n' (IsChain-Moved address s i here v)
        (Step-IsServing (streams c h) (v.backed i).serving)
        (stream_event-Same c (s.nodes i) n' event h)
  Step-Moved s i n' here v (ends_subscription token h) allowed =
      Same-Moved address s i (s.nodes i) n' (IsChain-Moved address s i here v)
        (Step-IsServing (ends_subscription token h) (v.backed i).serving)
        (end_subscription-Same token (s.nodes i) n' h)
