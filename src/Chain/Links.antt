-- ===== src/Chain/Links.antt =====
-- pkg/server: what a node of a chain holds, in itself and against a node behind it, and what a step
-- may change of it.
use razpravljalnica.Base.{
  nat_eq, ℕ, arith, get_elem?, inl, inr, length, some, ◌<◌, ◌≡◌, ◌≤◌, ◌⊎◌, refl, suc, zero,
}
use razpravljalnica.Int64.{Int64, half}
use razpravljalnica.Dict.{lookup}
use razpravljalnica.Event.{Event}
use razpravljalnica.EventBuffer.Invariant.{confirmed}
use razpravljalnica.Node.State.{Node, Rpc, replicate_event, acknowledge_event}
use razpravljalnica.Node.Replay.{IsServing}

-- The log has the event under the number.
abbrev pub Holds : Node → ℕ → Event → Type 0
Holds n x e = get_elem? n.event_buffer.events x ≡ some e

abbrev pub Queued : Node → Int64 → Event → Type 0
Queued n x e = lookup x n.event_queue ≡ some e

-- The node `b` stands behind `a` in the chain.
pub record Link (a b : Node) : Type 0 where
  pub prefix : (x : ℕ) (e : Event) → Holds b x e → Holds a x e
  pub behind : confirmed a.event_buffer ≤ confirmed b.event_buffer
  pub queued : (x : Int64) (e : Event) → Queued b x e → Holds a x e
  pub acked : (x : Int64) (e : Event) → lookup x a.ack_queue ≡ some e → x < confirmed b.event_buffer

-- Events wait under their own numbers; one whose number the log has is that of the log. The number
-- that is to be sent next is not beyond the log.
abbrev pub QueueFits : Node → Type 0
QueueFits n =
    (n.next_event_seq ≤ length n.event_buffer.events)
    × ((x : Int64) (e : Event)
        → Queued n x e
        → (e.sequence_number ≡ x) × (x < half) × (x < length n.event_buffer.events → Holds n x e))

-- What a node has sent: events of its log, and the numbers of events that it has confirmed.
abbrev pub Backed : Node → Rpc → Type 0
Backed n (replicate_event address e) = Holds n e.sequence_number e
Backed n (acknowledge_event address seq) = seq < confirmed n.event_buffer

pub Backed-log :
    (n n' : Node) (call : Rpc) → n'.event_buffer ≡ n.event_buffer → Backed n call → Backed n' call
Backed-log n n' (replicate_event address e) same h = rw same h
Backed-log n n' (acknowledge_event address seq) same h = rw same h

pub record IsBacked (n : Node) : Type 0 where
  pub serving : IsServing n
  pub fits : QueueFits n
  pub backed : (at : ℕ) (call : Rpc) → get_elem? n.sent at ≡ some call → Backed n call

-- A call goes to the neighbor that the node has.
abbrev pub Goes : Node → Rpc → Type 0
Goes n (replicate_event address e) = n.successor ≡ some address
Goes n (acknowledge_event address seq) = n.predecessor ≡ some address

-- What a step changes. `E` is what enters the log or the queue of events, and `P` what enters the
-- queue of acknowledgments.
pub record Effect (P : ℕ → Type 0) (E : ℕ → Event → Type 0) (n n' : Node) : Type 0 where
  pub same_successor : n'.successor ≡ n.successor
  pub same_predecessor : n'.predecessor ≡ n.predecessor
  pub enters : (x : ℕ) (e : Event) → Holds n' x e → Holds n x e ⊎ E x e
  pub stays : (x : ℕ) (e : Event) → Holds n x e → Holds n' x e
  pub confirms : confirmed n.event_buffer ≤ confirmed n'.event_buffer
  pub confirmed_by : (x : ℕ) → x < confirmed n'.event_buffer → (x < confirmed n.event_buffer) ⊎ P x
  pub queues : (x : Int64) (e : Event) → Queued n' x e → Queued n x e ⊎ E x e
  pub fits_on : QueueFits n → QueueFits n'
  pub acks :
      (x : Int64) (e : Event)
      → lookup x n'.ack_queue ≡ some e
      → (lookup x n.ack_queue ≡ some e) ⊎ P x
  pub sends :
      (at : ℕ) (call : Rpc)
      → get_elem? n'.sent at ≡ some call
      → (get_elem? n.sent at ≡ some call) ⊎ (Goes n' call × Backed n' call)

module _ {P : ℕ → Type 0} {E : ℕ → Event → Type 0} {n n' : Node} (f : Effect P E n n') where
  Backed-stays : (call : Rpc) → Backed n call → Backed n' call
  Backed-stays (replicate_event address e) h = f.stays e.sequence_number e h
  Backed-stays (acknowledge_event address seq) h = omega (arith, f.confirms)

  pub Effect-IsBacked : IsServing n' → IsBacked n → IsBacked n'
  Effect-IsBacked serving v = record {
    serving = serving;
    fits = f.fits_on v.fits;
    backed = λ at call h. elim (f.sends at call h) [
      | inl old ↦ Backed-stays call (v.backed at call old)
      | inr (goes, backed) ↦ backed
    ];
  }

  within_of :
      (b : Node) (c : ℕ)
      → c ≤ confirmed n'.event_buffer
      → ((x : ℕ) → P x → x < confirmed b.event_buffer)
      → confirmed n.event_buffer ≤ confirmed b.event_buffer
      → c ≤ confirmed b.event_buffer
  within_of b zero _ below behind = omega arith
  within_of b (suc c) h below behind = elim (f.confirmed_by c (omega arith)) [
    | inl old ↦ omega arith
    | inr new ↦ omega (arith, below c new)
  ]

  -- A step of the node in front, which confirms no more than the node behind has confirmed.
  pub Effect-upper :
      (b : Node) → ((x : ℕ) → P x → x < confirmed b.event_buffer) → Link n b → Link n' b
  Effect-upper b below l = record {
    prefix = λ x e h. f.stays x e (l.prefix x e h);
    behind = within_of b (confirmed n'.event_buffer) (omega arith) below l.behind;
    queued = λ x e h. f.stays x e (l.queued x e h);
    acked = λ x e h. elim (f.acks x e h) [ inl old ↦ l.acked x e old | inr new ↦ below x new ];
  }

  -- A step of the node behind, into which only events of the node in front enter.
  pub Effect-lower : (a : Node) → ((x : ℕ) (e : Event) → E x e → Holds a x e) → Link a n → Link a n'
  Effect-lower a known l = record {
    prefix =
        λ x e h. elim (f.enters x e h) [ inl old ↦ l.prefix x e old | inr new ↦ known x e new ];
    behind = omega (arith, l.behind, f.confirms);
    queued =
        λ x e h. elim (f.queues x e h) [ inl old ↦ l.queued x e old | inr new ↦ known x e new ];
    acked = λ x e h. omega (arith, l.acked x e h, f.confirms);
  }

-- The parts that an effect speaks of are as they were.
pub record Same (n n' : Node) : Type 0 where
  pub same_successor : n'.successor ≡ n.successor
  pub same_predecessor : n'.predecessor ≡ n.predecessor
  pub same_log : n'.event_buffer ≡ n.event_buffer
  pub same_events : n'.event_queue ≡ n.event_queue
  pub same_acks : n'.ack_queue ≡ n.ack_queue
  pub same_sent : n'.sent ≡ n.sent
  pub same_seq : n'.next_event_seq ≡ n.next_event_seq

pub Effect-refl : (P : ℕ → Type 0) (E : ℕ → Event → Type 0) (n : Node) → Effect P E n n
Effect-refl P E n = record {
  same_successor = refl;
  same_predecessor = refl;
  enters = λ x e h. inl h;
  stays = λ x e h. h;
  confirms = omega arith;
  confirmed_by = λ x h. inl h;
  queues = λ x e h. inl h;
  fits_on = λ v. v;
  acks = λ x e h. inl h;
  sends = λ at call h. inl h;
}

pub Same-Effect :
    (P : ℕ → Type 0) (E : ℕ → Event → Type 0) (n n' : Node) → Same n n' → Effect P E n n'
Same-Effect P E n n' s = record {
  same_successor = s.same_successor;
  same_predecessor = s.same_predecessor;
  enters = λ x e h. inl (rw (← s.same_log) h);
  stays = λ x e h. rw s.same_log h;
  confirms = ground (arith, s.same_log);
  confirmed_by = λ x h. inl (ground (arith, s.same_log));
  queues = λ x e h. inl (rw (← s.same_events) h);
  fits_on = λ v. rw (s.same_events, s.same_log, s.same_seq) v;
  acks = λ x e h. inl (rw (← s.same_acks) h);
  sends = λ at call h. inl (rw (← s.same_sent) h);
}

Goes-same :
    (n n' : Node) (call : Rpc)
    → n'.successor ≡ n.successor
    → n'.predecessor ≡ n.predecessor
    → Goes n call
    → Goes n' call
Goes-same n n' (replicate_event address e) s p h = rw s h
Goes-same n n' (acknowledge_event address seq) s p h = rw p h

-- One step after another, where the second adds nothing to the log or the queue of events.
pub Effect-trans :
    {P : ℕ → Type 0} {E : ℕ → Event → Type 0} {n m n' : Node}
    → Effect P E n m
    → Effect P E m n'
    → Effect P E n n'
Effect-trans {n = n} {m = m} {n' = n'} f g = record {
  same_successor = cc (f.same_successor, g.same_successor);
  same_predecessor = cc (f.same_predecessor, g.same_predecessor);
  enters = λ x e h. elim (g.enters x e h) [ inl old ↦ f.enters x e old | inr new ↦ inr new ];
  stays = λ x e h. g.stays x e (f.stays x e h);
  confirms = omega (arith, f.confirms, g.confirms);
  confirmed_by =
      λ x h. elim (g.confirmed_by x h) [ inl old ↦ f.confirmed_by x old | inr new ↦ inr new ];
  queues = λ x e h. elim (g.queues x e h) [ inl old ↦ f.queues x e old | inr new ↦ inr new ];
  fits_on = λ v. g.fits_on (f.fits_on v);
  acks = λ x e h. elim (g.acks x e h) [ inl old ↦ f.acks x e old | inr new ↦ inr new ];
  sends = λ at call h. elim (g.sends at call h) [
    | inr new ↦ inr new
    | inl old ↦ elim (f.sends at call old) [
      | inl older ↦ inl older
      | inr (goes, backed) ↦
          inr (
            Goes-same m n' call g.same_successor g.same_predecessor goes,
            Backed-stays g call backed,
          )
    ]
  ];
}
