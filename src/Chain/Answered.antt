-- ===== src/Chain/Answered.antt =====
-- pkg/server: what the HEAD answers, the TAIL shows.
use razpravljalnica.Base.{
  nat_eq, string_eq, ℕ, String, arith, get_elem?, inl, inr, true, ◌<◌, ◌≡◌, Bool-cases, nat_beq,
  get_elem?-of_lt, sym, ◌∙◌,
}
use razpravljalnica.Dict.{lookup}
use razpravljalnica.Outcome.{returns}
use razpravljalnica.Event.{Event}
use razpravljalnica.EventBuffer.Invariant.{confirmed}
use razpravljalnica.AckSync.{EventApplicationResult, new_ack_synchronization}
use razpravljalnica.Node.State.{Node, new_server}
use razpravljalnica.Node.Replicate.{finish_replication}
use razpravljalnica.Node.Answers.{IsAnswered}
use razpravljalnica.Node.Answers.Channels.{Step-IsAnswered, finish_replication-awaits}
use razpravljalnica.Chain.{System, Reach, start, next, moves, fails}
use razpravljalnica.Chain.Safety.{Reach-IsChain}

module _ (address : ℕ → String) (distinct : (i j : ℕ) → address i ≡ address j → i ≡ j) where
  Reach-IsAnswered :
      {count : ℕ} {s : System} → Reach address count s → (j : ℕ) → IsAnswered (s.nodes j)
  unfolding new_server new_ack_synchronization lookup
  Reach-IsAnswered start j = λ seq r rest h. absurd (cc)
  Reach-IsAnswered (next {s} r (fails i)) j = Reach-IsAnswered r j
  Reach-IsAnswered (next {s} r (moves i {n'} here step allowed)) j =
      elim (Bool-cases (nat_beq j i)) [
        | inr other ↦ rw other (Reach-IsAnswered r j)
        | inl same ↦ rw same (
            Step-IsAnswered step ((Reach-IsChain address distinct r).backed i).serving
              (Reach-IsAnswered r i))
      ]

  -- In every state that a chain of nodes with different addresses can reach, where nodes may fail
  -- at any time and none joins: where the write handler of a node that is alive has the result of
  -- its event, each later node that is alive has confirmed the number of the event, and has the
  -- same event under it as the log of that node.
  pub answered_write :
      {count : ℕ} {s : System} (i j : ℕ) (event : Event) (r : EventApplicationResult) (n' : Node)
      → Reach address count s
      → i < j
      → s.alive i ≡ true
      → s.alive j ≡ true
      → finish_replication event (s.nodes i) ≡ returns (n', r)
      → (event.sequence_number < confirmed (s.nodes j).event_buffer)
        × (get_elem? (s.nodes j).event_buffer.events event.sequence_number
            ≡ get_elem? (s.nodes i).event_buffer.events event.sequence_number)
  answered_write {s = s} i j event r n' reach order live_i live_j h =
      let v = Reach-IsChain address distinct reach in
      let l = v.linked i j order live_i live_j in
      let here = finish_replication-awaits event (s.nodes i) n' r (Reach-IsAnswered reach i) h in
      let there : event.sequence_number < confirmed (s.nodes j).event_buffer =
        omega (arith, here, l.behind) in
      let (e, at) =
        get_elem?-of_lt (s.nodes j).event_buffer.events event.sequence_number
          (omega (arith, there, (v.backed j).serving.log.prefix)) in
      (there, at ∙ sym (l.prefix event.sequence_number e at))
