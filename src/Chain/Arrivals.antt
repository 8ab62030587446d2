-- ===== src/Chain/Arrivals.antt =====
-- pkg/server: what a node of a chain is told by the others is true of the nodes in front of it or
-- behind it.
use razpravljalnica.Base.{
  nat_eq, string_eq, ℕ, String, arith, inl, inr, some, true, ◌<◌, ◌≡◌, length, subst,
  lt_of_get_elem?, get_elem?-of_lt, dec_lt,
}
use razpravljalnica.Int64.{Int64, half, sle}
use razpravljalnica.Event.{Event, NodeInfo}
use razpravljalnica.EventBuffer.{get_last_received_and_applied}
use razpravljalnica.EventBuffer.Invariant.{confirmed}
use razpravljalnica.Node.State.{replicate_event, acknowledge_event}
use razpravljalnica.Chain.{System, Sent, MaySucceed}
use razpravljalnica.Chain.Links.{Holds}
use razpravljalnica.Chain.Invariant.{IsChain}

module _ (address : ℕ → String) (distinct : (i j : ℕ) → address i ≡ address j → i ≡ j) where
  -- What arrives as an event is in the log of every node in front.
  pub arrived :
      (s : System) (i : ℕ) (event : Event)
      → IsChain address s
      → Sent address s (replicate_event (address i) event)
      → (event.sequence_number < half)
        × ((j : ℕ) → j < i → s.alive j ≡ true → Holds (s.nodes j) event.sequence_number event)
        × ((j : ℕ) × (j < i) × (s.alive j ≡ true))
  arrived s i event v (j, at, live, sent) =
      let holds : Holds (s.nodes j) event.sequence_number event =
        (v.backed j).backed at (replicate_event (address i) event) sent in
      let (k, same, order, clear) =
        (v.placed j).leads at (replicate_event (address i) event) sent in
      let here : i ≡ k = distinct i k same in
      let inside =
        lt_of_get_elem? (s.nodes j).event_buffer.events event.sequence_number event holds in
      (
        omega (arith, inside, (v.backed j).serving.log.fits),
        λ m order_m live_m. elim (dec_lt j m) [
          | yes past ↦ absurd (cc (clear m past (omega arith)))
          | no not_past ↦ elim (dec_lt m j) [
            | yes front ↦ (v.linked m j front live_m live).prefix event.sequence_number event holds
            | no not_front ↦
                let at_j : j ≡ m = omega arith in
                subst (λ o. Holds (s.nodes o) event.sequence_number event) at_j holds
          ]
        ],
        (j, omega arith, live),
      )

  -- What arrives as an acknowledgment is confirmed at every node behind.
  pub acked :
      (s : System) (i : ℕ) (seq : Int64)
      → IsChain address s
      → Sent address s (acknowledge_event (address i) seq)
      → (j : ℕ) → i < j
      → s.alive j ≡ true
      → seq < confirmed (s.nodes j).event_buffer
  acked s i seq v (j, at, live, sent) m order_m live_m =
      let holds : seq < confirmed (s.nodes j).event_buffer =
        (v.backed j).backed at (acknowledge_event (address i) seq) sent in
      let (k, same, order, clear) =
        (v.placed j).leads at (acknowledge_event (address i) seq) sent in
      let here : i ≡ k = distinct i k same in
      elim (dec_lt m j) [
        | yes front ↦ absurd (cc (clear m (omega arith) front))
        | no not_front ↦ elim (dec_lt j m) [
          | yes past ↦ omega (arith, (v.linked j m past live live_m).behind)
          | no not_past ↦
              let at_j : j ≡ m = omega arith in
              subst (λ o. seq < confirmed (s.nodes o).event_buffer) at_j holds
        ]
      ]

  pub arrived-known :
      (s : System) (i j : ℕ) (event : Event)
      → IsChain address s
      → s.alive i ≡ true
      → j < i
      → s.alive j ≡ true
      → Holds (s.nodes j) event.sequence_number event
      → event.sequence_number < length (s.nodes i).event_buffer.events
      → Holds (s.nodes i) event.sequence_number event
  arrived-known s i j event v here order live holds inside =
      let (other, at) =
        get_elem?-of_lt (s.nodes i).event_buffer.events event.sequence_number inside in
      let front = (v.linked j i order live here).prefix event.sequence_number other at in
      let same : other ≡ event = cc in
      subst (λ e. Holds (s.nodes i) event.sequence_number e) same at

  -- What the answer of the new successor acknowledges is confirmed at every node behind.
  pub answer-confirmed :
      (s : System) (i : ℕ) (p : NodeInfo) (received last : Int64)
      → IsChain address s
      → MaySucceed address s i (some p) (some (received, last))
      → (j : ℕ) (x : Int64) → i < j
      → s.alive j ≡ true
      → x < half
      → sle x last ≡ true
      → x < confirmed (s.nodes j).event_buffer
  unfolding get_last_received_and_applied
  answer-confirmed s i p received last v (k, at, order, live_k, clear, answer) j x order_j live
        small le =
      let answered : last ≡ (s.nodes k).event_buffer.last_confirmed = elim answer [
        | inl failed ↦ absurd (cc)
        | inr ok ↦ cc
      ] in
      let word = (v.backed k).serving.log.word in
      let below : x < confirmed (s.nodes k).event_buffer = ground (arith, word, answered) in
      elim (dec_lt j k) [
        | yes front ↦ absurd (cc (clear j order_j front))
        | no not_front ↦ elim (dec_lt k j) [
          | yes past ↦ omega (arith, (v.linked k j past live_k live).behind)
          | no not_past ↦
              let at_k : k ≡ j = omega arith in
              subst (λ o. x < confirmed (s.nodes o).event_buffer) at_k below
        ]
      ]
