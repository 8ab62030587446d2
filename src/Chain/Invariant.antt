-- ===== src/Chain/Invariant.antt =====
-- pkg/server: in a chain whose nodes may fail, each node's log is the beginning of the log of every
-- node in front of it, and what a node has confirmed, every node behind it has confirmed.
use razpravljalnica.Base.{
  [], nat_eq, ℕ, String, arith, inl, inr, none, some, true, false, ◌<◌, ◌≡◌, Bool-cases, nat_beq,
  refl, subst, Option,
}
use razpravljalnica.Int64.{Int64}
use razpravljalnica.Dict.{lookup}
use razpravljalnica.Event.{Event, NodeInfo}
use razpravljalnica.EventBuffer.Invariant.{confirmed}
use razpravljalnica.Node.State.{Node, set_successor_connection}
use razpravljalnica.Node.Replay.{IsServing}
use razpravljalnica.Node.Neighbors.{set_predecessor}
use razpravljalnica.Chain.{System, MayPrecede, MaySucceed, update}
use razpravljalnica.Chain.Links.{
  Link, IsBacked, Effect, Holds, Queued, Effect-upper, Effect-lower, Effect-IsBacked, Same,
  Same-Effect, Backed-log,
}
use razpravljalnica.Chain.Placed.{IsPlaced, Effect-IsPlaced, IsPlaced-fails}

module _ (address : ℕ → String) where
  pub record IsChain (s : System) : Type 0 where
    pub backed : (i : ℕ) → IsBacked (s.nodes i)
    pub placed : (i : ℕ) → IsPlaced address s.alive i (s.nodes i)
    pub linked :
        (i j : ℕ) → i < j → s.alive i ≡ true → s.alive j ≡ true → Link (s.nodes i) (s.nodes j)

  -- What node `i` must be after a step for the chain to stay in order.
  pub record Moved (s : System) (i : ℕ) (n' : Node) : Type 0 where
    pub backed : IsBacked n'
    pub placed : IsPlaced address s.alive i n'
    pub upper : (j : ℕ) → i < j → s.alive j ≡ true → Link n' (s.nodes j)
    pub lower : (j : ℕ) → j < i → s.alive j ≡ true → Link (s.nodes j) n'

  pub Moved-IsChain :
      (s : System) (i : ℕ) (n' : Node)
      → s.alive i ≡ true
      → IsChain s
      → Moved s i n'
      → IsChain (record s { nodes = update s.nodes i n' })
  Moved-IsChain s i n' here v m = record {
    backed = λ j. elim (Bool-cases (nat_beq j i)) [
      | inl same ↦ rw same m.backed
      | inr other ↦ rw other (v.backed j)
    ];
    placed = λ j. elim (Bool-cases (nat_beq j i)) [
      | inl same ↦ rw same (subst (λ k. IsPlaced address s.alive k n') (ground arith) m.placed)
      | inr other ↦ rw other (v.placed j)
    ];
    linked = λ j k order live_j live_k. elim (Bool-cases (nat_beq j i)) [
      | inl at_j ↦ elim (Bool-cases (nat_beq k i)) [
        | inl at_k ↦ absurd (ground arith)
        | inr off_k ↦ rw (at_j, off_k) (m.upper k (ground arith) live_k)
      ]
      | inr off_j ↦ elim (Bool-cases (nat_beq k i)) [
        | inl at_k ↦ rw (off_j, at_k) (m.lower j (ground arith) live_j)
        | inr off_k ↦ rw (off_j, off_k) (v.linked j k order live_j live_k)
      ]
    ];
  }

  pub fails-IsChain :
      (s : System) (i : ℕ) → IsChain s → IsChain (record s { alive = update s.alive i false })
  fails-IsChain s i v = record {
    backed = v.backed;
    placed = λ j. IsPlaced-fails address s.alive i j (s.nodes j) (v.placed j);
    linked = λ j k order live_j live_k. v.linked j k order (ground arith) (ground arith);
  }

  pub IsChain-Moved : (s : System) (i : ℕ) → s.alive i ≡ true → IsChain s → Moved s i (s.nodes i)
  IsChain-Moved s i here v = record {
    backed = v.backed i;
    placed = v.placed i;
    upper = λ j order live. v.linked i j order here live;
    lower = λ j order live. v.linked j i order live here;
  }

  -- What a step adds must be confirmed behind the node, and logged in front of it.
  pub Effect-Moved :
      {P : ℕ → Type 0} {E : ℕ → Event → Type 0} (s : System) (i : ℕ) (n n' : Node)
      → Moved s i n
      → IsServing n'
      → Effect P E n n'
      → ((j : ℕ) (x : ℕ) → i < j → s.alive j ≡ true → P x → x < confirmed (s.nodes j).event_buffer)
      → ((j : ℕ) (x : ℕ) (e : Event) → j < i → s.alive j ≡ true → E x e → Holds (s.nodes j) x e)
      → Moved s i n'
  Effect-Moved s i n n' m serving f below known = record {
    backed = Effect-IsBacked f serving m.backed;
    placed = Effect-IsPlaced address s.alive i n n' f m.placed;
    upper = λ j order live.
        Effect-upper f (s.nodes j) (λ x p. below j x order live p) (m.upper j order live);
    lower = λ j order live.
        Effect-lower f (s.nodes j) (λ x e p. known j x e order live p) (m.lower j order live);
  }

  pub Same-Moved :
      (s : System) (i : ℕ) (n n' : Node) → Moved s i n → IsServing n' → Same n n' → Moved s i n'
  Same-Moved s i n n' m serving same =
      Effect-Moved {P = λ x. ⊥} {E = λ x e. ⊥} s i n n' m serving (Same-Effect _ _ n n' same)
        (λ j x order live p. absurd p) (λ j x e order live p. absurd p)

  -- A change of the neighbors alone, which may take events off the queue.
  neighbors-Moved :
      (s : System) (i : ℕ) (n n' : Node)
      → Moved s i n
      → IsPlaced address s.alive i n'
      → n'.event_buffer ≡ n.event_buffer
      → n'.ack_queue ≡ n.ack_queue
      → n'.next_ack_seq ≡ n.next_ack_seq
      → n'.next_event_seq ≡ n.next_event_seq
      → n'.storage ≡ n.storage
      → n'.sent ≡ n.sent
      → ((x : Int64) (e : Event) → Queued n' x e → Queued n x e)
      → Moved s i n'
  neighbors-Moved s i n n' m placed log acks next_ack next_event storage sent fewer = record {
    backed = record {
      serving = rw (log, next_ack, acks, storage) m.backed.serving;
      fits = (
        rw (next_event, log) m.backed.fits.0,
        λ x e h. rw log (m.backed.fits.1 x e (fewer x e h)),
      );
      backed = λ at call h. Backed-log n n' call log (m.backed.backed at call (rw (← sent) h));
    };
    placed = placed;
    upper = λ j order live.
        let l = m.upper j order live in
        record {
          prefix = λ x e h. rw log (l.prefix x e h);
          behind = rw log l.behind;
          queued = λ x e h. rw log (l.queued x e h);
          acked = λ x e h. l.acked x e (rw (← acks) h);
        };
    lower = λ j order live.
        let l = m.lower j order live in
        record {
          prefix = λ x e h. l.prefix x e (rw (← log) h);
          behind = rw log l.behind;
          queued = λ x e h. l.queued x e (fewer x e h);
          acked = λ x e h. rw log (l.acked x e h);
        };
  }

  -- The node is told of its predecessor; the queue of events is cleared for a new one.
  pub set_predecessor-Moved :
      (s : System) (i : ℕ) (n : Node) (pred : Option NodeInfo)
      → Moved s i n
      → MayPrecede address s i pred
      → Moved s i (set_predecessor pred n)
  unfolding set_predecessor lookup
  set_predecessor-Moved s i n none m clear =
      let placed : IsPlaced address s.alive i (record n { predecessor = none }) = record {
        first = λ h. clear;
        last = m.placed.last;
        before = λ a h. cc;
        after = m.placed.after;
        leads = m.placed.leads;
      } in
      neighbors-Moved s i n _ m placed refl refl refl refl refl refl (λ x e h. h)
  set_predecessor-Moved s i n (some p) m (k, at, order, clear) =
      let placed : IsPlaced address s.alive i
          (record n { predecessor = some p.address; event_queue = [] }) =
        record {
          first = λ h. absurd (cc);
          last = m.placed.last;
          before = λ a h. (k, ground (arith, at), order, clear);
          after = m.placed.after;
          leads = m.placed.leads;
        } in
      neighbors-Moved s i n _ m placed refl refl refl refl refl refl (λ x e h. absurd (cc))

  pub set_successor_connection-Moved :
      (s : System) (i : ℕ) (n : Node) (succ : Option NodeInfo) (reply : Option (Int64 × Int64))
      → Moved s i n
      → MaySucceed address s i succ reply
      → Moved s i (set_successor_connection succ n)
  unfolding set_successor_connection
  set_successor_connection-Moved s i n none reply m clear =
      let placed : IsPlaced address s.alive i (record n { successor = none }) = record {
        first = m.placed.first;
        last = λ h. clear;
        before = m.placed.before;
        after = λ a h. cc;
        leads = m.placed.leads;
      } in
      neighbors-Moved s i n _ m placed refl refl refl refl refl refl (λ x e h. h)
  set_successor_connection-Moved s i n (some p) reply m (k, at, order, live, clear, answer) =
      let placed : IsPlaced address s.alive i (record n { successor = some p.address }) = record {
        first = m.placed.first;
        last = λ h. absurd (cc);
        before = m.placed.before;
        after = λ a h. (k, ground (arith, at), order, clear);
        leads = m.placed.leads;
      } in
      neighbors-Moved s i n _ m placed refl refl refl refl refl refl (λ x e h. h)
