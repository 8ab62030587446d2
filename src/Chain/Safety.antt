-- ===== src/Chain/Safety.antt =====
-- pkg/server: in a chain whose nodes may fail, each node's log is the beginning of the log of every
-- node in front of it, and what a node has confirmed, every node behind it has confirmed.
use razpravljalnica.Base.{
  nat_eq, ℕ, List, String, arith, some, true, ◌<◌, ◌≡◌, ltb, take, drop, sym, ◌++◌, ap, ◌∙◌,
  take-drop, take-take_le, take-of_prefix, ◌+◌, ◌-◌,
}
use razpravljalnica.Dict.{lookup}
use razpravljalnica.Event.{Event}
use razpravljalnica.EventBuffer.{new_event_buffer}
use razpravljalnica.EventBuffer.Invariant.{confirmed}
use razpravljalnica.Storage.Types.{new_storage}
use razpravljalnica.Node.State.{Node, new_server}
use razpravljalnica.Node.Replay.{replay, replay-append}
use razpravljalnica.Node.Safety.{new_server-IsServing}
use razpravljalnica.Chain.{System, Step, moves, fails, Reach, start, next, formed, fresh}
use razpravljalnica.Chain.Links.{IsBacked}
use razpravljalnica.Chain.Placed.{IsPlaced}
use razpravljalnica.Chain.Invariant.{IsChain, Moved-IsChain, fails-IsChain}
use razpravljalnica.Chain.Moves.{Step-Moved}

module _ (address : ℕ → String) where
  fresh-IsBacked : (count i : ℕ) → IsBacked (fresh address count i)
  unfolding new_server new_event_buffer lookup
  fresh-IsBacked count i =
      let served = new_server-IsServing (address i) (address i) in
      record {
        serving = record {
          log = served.log;
          acked = served.acked;
          queued = served.queued;
          replayed = served.replayed;
        };
        fits = (omega arith, λ x e h. absurd (cc));
        backed = λ at call h. absurd (cc);
      }

  fresh-IsPlaced : (count i : ℕ) → IsPlaced address (λ j. ltb j count) i (fresh address count i)
  unfolding new_server
  fresh-IsPlaced count i = record {
    first = λ h j below. absurd (ground arith);
    last = λ h j above. ground arith;
    before = λ a h. (i - 1, ground arith, ground arith, λ j p q. absurd (omega arith));
    after = λ a h. (i + 1, ground arith, omega arith, λ j p q. absurd (omega arith));
    leads = λ at call h. absurd (cc);
  }

  formed-IsChain : (count : ℕ) → IsChain address (formed address count)
  unfolding new_server new_event_buffer lookup
  formed-IsChain count = record {
    backed = fresh-IsBacked count;
    placed = fresh-IsPlaced count;
    linked = λ i j order live_i live_j. record {
      prefix = λ x e h. h;
      behind = omega arith;
      queued = λ x e h. absurd (cc);
      acked = λ x e h. absurd (cc);
    };
  }

module _ (address : ℕ → String) (distinct : (i j : ℕ) → address i ≡ address j → i ≡ j) where
  Step-IsChain : {s t : System} → Step address s t → IsChain address s → IsChain address t
  Step-IsChain {s} (moves i {n'} here step allowed) v =
      Moved-IsChain address s i n' here v (Step-Moved address distinct s i n' here v step allowed)
  Step-IsChain {s} (fails i) v = fails-IsChain address s i v

  pub Reach-IsChain : {count : ℕ} {s : System} → Reach address count s → IsChain address s
  Reach-IsChain {count} start = formed-IsChain address count
  Reach-IsChain (next r step) = Step-IsChain step (Reach-IsChain r)

  -- In every state that a chain of nodes with different addresses can reach, where nodes may fail
  -- at any time and none joins, and calls arrive late, repeated or not at all: for two nodes that
  -- are alive, the events that the later one has confirmed are those that the earlier one has
  -- confirmed, and then `rest`, all in the log of the earlier one, and the storage of the later
  -- one is what the replay of `rest` makes of the storage of the earlier one.
  pub storage_behind :
      {count : ℕ} {s : System} (i j : ℕ)
      → Reach address count s
      → i < j
      → s.alive i ≡ true
      → s.alive j ≡ true
      → (rest : List Event) × (take
            (confirmed (s.nodes j).event_buffer)
            (s.nodes i).event_buffer.events
          ≡ take (confirmed (s.nodes i).event_buffer) (s.nodes i).event_buffer.events ++ rest)
        × (replay rest (some (s.nodes i).storage) ≡ some (s.nodes j).storage)
  storage_behind {s = s} i j r order live_i live_j =
      let v = Reach-IsChain r in
      let l = v.linked i j order live_i live_j in
      let a : Node = s.nodes i in
      let b : Node = s.nodes j in
      let m : ℕ = confirmed a.event_buffer in
      let k : ℕ = confirmed b.event_buffer in
      let common : take k b.event_buffer.events ≡ take k a.event_buffer.events =
        take-of_prefix k b.event_buffer.events a.event_buffer.events l.prefix
          (v.backed j).serving.log.prefix in
      let rest : List Event = drop m (take k a.event_buffer.events) in
      let whole : take m a.event_buffer.events ++ rest ≡ take k a.event_buffer.events =
        ap (λ front. front ++ rest) (sym (take-take_le m k a.event_buffer.events l.behind))
        ∙ take-drop m (take k a.event_buffer.events) in
      (
        rest,
        sym whole,
        ap (replay rest) (sym (v.backed i).serving.replayed)
            ∙ sym (replay-append (take m a.event_buffer.events) rest (some new_storage))
            ∙ ap (λ events. replay events (some new_storage)) (whole ∙ sym common)
            ∙ (v.backed j).serving.replayed,
      )
