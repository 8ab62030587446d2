-- ===== src/Chain/Effects.antt =====
-- pkg/server: what acknowledgments and resent events change of a node, as the chain sees it.
use razpravljalnica.Base.{
  nat_eq, ℕ, arith, get_elem?, inl, inr, length, none, refl, some, ◌<◌, ◌≡◌, ◌⊎◌, ◌≢◌, Option-cases,
  suc, zero, Bool-cases, true, ◌∷◌, [], get_elem?-snoc, lt_of_get_elem?, String, subst, ◌++◌, ◌==◌,
}
use razpravljalnica.Int64.{Int64, half, inc, sle}
use razpravljalnica.Dict.{insert, lookup-insert}
use razpravljalnica.Outcome.{returns, ◌>>=◌, >>=-eq-returns, or_panic, or_panic-eq-returns}
use razpravljalnica.Event.{Event}
use razpravljalnica.EventBuffer.{get_event}
use razpravljalnica.Node.State.{Node, Rpc, replicate_event as replicate_rpc}
use razpravljalnica.Node.Acks.{buffer_ack}
use razpravljalnica.Node.Replicate.{replicate_event}
use razpravljalnica.Node.Neighbors.{acknowledge_range, resend_range}
use razpravljalnica.Node.Replay.{IsServing, buffer_ack-IsServing, buffer_ack_cases}
use razpravljalnica.Node.Safety.{replicate_event-IsServing}
use razpravljalnica.Chain.Links.{Holds, Backed, Goes, Effect, Effect-trans, Effect-refl}

queues_ack-Effect :
    (P : ℕ → Type 0) (E : ℕ → Event → Type 0) (seq : Int64) (event : Event) (n : Node)
    → event.sequence_number ≡ seq
    → P seq
    → Effect P E n (record n { ack_queue = insert event.sequence_number event n.ack_queue })
queues_ack-Effect P E seq event n own p = record {
  same_successor = refl;
  same_predecessor = refl;
  enters = λ x e h. inl h;
  stays = λ x e h. h;
  confirms = omega arith;
  confirmed_by = λ x h. inl h;
  queues = λ x e h. inl h;
  fits_on = λ v. v;
  acks = λ x e h. elim (Bool-cases (event.sequence_number == x)) [
    | inl here ↦ inr (subst P (ground arith) p)
    | inr other ↦ inl (ground (arith, lookup-insert event.sequence_number x event n.ack_queue))
  ];
  sends = λ at call h. inl h;
}

pub buffer_ack-Effect :
    (P : ℕ → Type 0) (E : ℕ → Event → Type 0) (seq : Int64) (n n' : Node)
    → IsServing n
    → (seq < length n.event_buffer.events → P seq)
    → buffer_ack seq n ≡ returns n'
    → Effect P E n n'
buffer_ack-Effect P E seq n n' v p h = elim (buffer_ack_cases seq n n' v h) [
  | inl same ↦ subst (Effect P E n) same (Effect-refl P E n)
  | inr (event, at, after) ↦ subst (Effect P E n) after (
      queues_ack-Effect P E seq event n (v.log.numbered seq event at)
        (p (lt_of_get_elem? n.event_buffer.events seq event at)))
]

one_more_sent :
    (n : Node) (call : Rpc)
    → Goes n call
    → Backed n call
    → (at : ℕ) (c : Rpc) → get_elem? (n.sent ++ call ∷ []) at ≡ some c
    → (get_elem? n.sent at ≡ some c) ⊎ (Goes n c × Backed n c)
one_more_sent n call goes backed at c h = elim (get_elem?-snoc n.sent call at c h) [
  | inl old ↦ inl old
  | inr (_, e) ↦ inr (rw e goes, rw e backed)
]

-- A node with a successor sends it the event, which is in its log.
sends_event-Effect :
    (P : ℕ → Type 0) (E : ℕ → Event → Type 0) (event : Event) (n : Node) (address : String)
    → n.successor ≡ some address
    → Holds n event.sequence_number event
    → Effect P E n (record n { sent = n.sent ++ replicate_rpc address event ∷ [] })
sends_event-Effect P E event n address succ at = record {
  same_successor = refl;
  same_predecessor = refl;
  enters = λ x e h. inl h;
  stays = λ x e h. h;
  confirms = omega arith;
  confirmed_by = λ x h. inl h;
  queues = λ x e h. inl h;
  fits_on = λ v. v;
  acks = λ x e h. inl h;
  sends = one_more_sent n (replicate_rpc address event) succ at;
}

pub replicate_event-Effect :
    (P : ℕ → Type 0) (E : ℕ → Event → Type 0) (event : Event) (n n' : Node)
    → IsServing n
    → Holds n event.sequence_number event
    → (n.successor ≡ none → P event.sequence_number)
    → replicate_event event n ≡ returns n'
    → Effect P E n n'
unfolding replicate_event
replicate_event-Effect P E event n n' v at p h = elim (Option-cases n.successor) [
  | inl tail ↦ buffer_ack-Effect P E event.sequence_number n n' v (λ inside. p tail) (ground arith)
  | inr (address, e) ↦
      let same : record n { sent = n.sent ++ replicate_rpc address event ∷ [] } ≡ n' =
        ground arith in
      subst (Effect P E n) same (sends_event-Effect P E event n address e at)
]

pub acknowledge_range-Effect :
    (P : ℕ → Type 0) (E : ℕ → Event → Type 0) (fuel : ℕ) (seq last : Int64) (n n' : Node)
    → IsServing n
    → ((x : Int64) → x < half → sle x last ≡ true → P x)
    → acknowledge_range fuel seq last n ≡ returns n'
    → Effect P E n n'
unfolding acknowledge_range
acknowledge_range-Effect P E zero seq last n n' v p h =
    let same : n ≡ n' = ground arith in subst (Effect P E n) same (Effect-refl P E n)
acknowledge_range-Effect P E (suc fuel) seq last n n' v p h = elim (Bool-cases (sle seq last)) [
  | inr over ↦ let same : n ≡ n' = ground arith in subst (Effect P E n) same (Effect-refl P E n)
  | inl more ↦
      let below : seq < length n.event_buffer.events → seq < half =
        λ inside. omega (arith, v.log.fits) in
      let (m, one, rest) =
        >>=-eq-returns (buffer_ack seq n) (acknowledge_range fuel (inc seq) last) (ground arith) in
      Effect-trans (buffer_ack-Effect P E seq n m v (λ inside. p seq (below inside) more) one) (
        acknowledge_range-Effect P E fuel (inc seq) last m n' (buffer_ack-IsServing seq n m v one) p
          rest)
]

get_event_at :
    (seq : Int64) (event : Event) (n : Node)
    → IsServing n
    → get_event seq n.event_buffer ≡ some event
    → Holds n event.sequence_number event
unfolding get_event
get_event_at seq event n v h = ground (arith, v.log.numbered seq event)

-- A node with a successor sends events of its log again.
pub resend_range-Effect :
    (P : ℕ → Type 0) (E : ℕ → Event → Type 0) (fuel : ℕ) (seq last : Int64) (n n' : Node)
    (address : String)
    → IsServing n
    → n.successor ≡ some address
    → resend_range fuel seq last n ≡ returns n'
    → Effect P E n n'
unfolding resend_range
resend_range-Effect P E zero seq last n n' address v succ h =
    let same : n ≡ n' = ground arith in subst (Effect P E n) same (Effect-refl P E n)
resend_range-Effect P E (suc fuel) seq last n n' address v succ h =
    elim (Bool-cases (sle seq last)) [
      | inr over ↦ let same : n ≡ n' = ground arith in subst (Effect P E n) same (Effect-refl P E n)
      | inl more ↦
          let not_tail : n.successor ≢ none = λ tail. cc in
          let (event, got, sending) =
            >>=-eq-returns (or_panic (get_event seq n.event_buffer))
              (λ e. replicate_event e n >>= resend_range fuel (inc seq) last) (ground arith) in
          let (m, one, rest) =
            >>=-eq-returns (replicate_event event n) (resend_range fuel (inc seq) last) sending in
          let at = get_event_at seq event n v (or_panic-eq-returns _ got) in
          let f : Effect P E n m =
            replicate_event-Effect P E event n m v at (λ tail. absurd (not_tail tail)) one in
          Effect-trans f (
            resend_range-Effect P E fuel (inc seq) last m n' address
              (replicate_event-IsServing event n m v one) (cc (f.same_successor)) rest)
    ]
