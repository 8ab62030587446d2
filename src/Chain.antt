-- ===== src/Chain.antt =====
-- pkg/server: several nodes in a chain, with the calls between them. The nodes are numbered along
-- the chain, from the HEAD; any of them may fail, and none joins. A call is delivered from the list
-- `sent` of its sender, any number of times and in any order, while the sender is alive. The control
-- plane tells a node of a neighbor only if no node between the two is alive, and that it has none
-- only if no node on that side is alive.
pub mod Links
pub mod Effects
pub mod Growing
pub mod Confirms
pub mod Placed
pub mod Invariant
pub mod Arrivals
pub mod Moves
pub mod Safety
pub mod Answered
use razpravljalnica.Base.{
  Bool, Option, String, false, get_elem?, if◌then◌else◌, none, nat_beq, some, true, ltb, ◌<◌, ◌+◌,
  ◌-◌, ◌≡◌, ◌⊎◌, ℕ,
}
use razpravljalnica.Int64.{Int64}
use razpravljalnica.Event.{NodeInfo}
use razpravljalnica.EventBuffer.{get_last_received_and_applied}
use razpravljalnica.Node.State.{Node, Rpc, replicate_event, acknowledge_event, new_server}
use razpravljalnica.Node.Steps.{
  receives_event, receives_ack, gets_predecessor, gets_successor, Step as NodeStep,
}

abbrev pub update {ℓ} : {A : Type ℓ} → (ℕ → A) → ℕ → A → ℕ → A
update f i v j = if nat_beq j i then v else f j

pub record System : Type 0 where
  pub nodes : ℕ → Node
  pub alive : ℕ → Bool

-- No node strictly between the two is alive.
abbrev pub Clear : (ℕ → Bool) → ℕ → ℕ → Type 0
Clear alive i k = (j : ℕ) → i < j → j < k → alive j ≡ false

abbrev pub NoneBefore : (ℕ → Bool) → ℕ → Type 0
NoneBefore alive i = (j : ℕ) → j < i → alive j ≡ false

abbrev pub NoneAfter : (ℕ → Bool) → ℕ → Type 0
NoneAfter alive i = (j : ℕ) → i < j → alive j ≡ false

module _ (address : ℕ → String) where
  -- The call stands in what a node that is alive has sent.
  abbrev pub Sent : System → Rpc → Type 0
  Sent s call =
      (j : ℕ) × (at : ℕ) × (s.alive j ≡ true) × (get_elem? (s.nodes j).sent at ≡ some call)

  abbrev pub MayPrecede : System → ℕ → Option NodeInfo → Type 0
  MayPrecede s i none = NoneBefore s.alive i
  MayPrecede s i (some p) = (k : ℕ) × (p.address ≡ address k) × (k < i) × Clear s.alive k i

  -- The answer of `GetLastSequenceNumbers` is that of the new successor, or the call fails.
  abbrev pub MaySucceed : System → ℕ → Option NodeInfo → Option (Int64 × Int64) → Type 0
  MaySucceed s i none reply = NoneAfter s.alive i
  MaySucceed s i (some p) reply =
      (k : ℕ) × (p.address ≡ address k)
      × (i < k)
      × (s.alive k ≡ true)
      × Clear s.alive i k
      × ((reply ≡ none) ⊎ (reply ≡ some (get_last_received_and_applied (s.nodes k).event_buffer)))

  -- When the chain lets node `i` make a step.
  abbrev pub Allowed : (s : System) (i : ℕ) {n n' : Node} → NodeStep n n' → Type 0
  Allowed s i (receives_event event) = Sent s (replicate_event (address i) event)
  Allowed s i (receives_ack seq h) = Sent s (acknowledge_event (address i) seq)
  Allowed s i (gets_predecessor pred) = MayPrecede s i pred
  Allowed s i (gets_successor succ reply h) = MaySucceed s i succ reply
  Allowed s i _ = Unit {0}

  pub data Step (s : System) : System → Type 0 where
    moves :
        (i : ℕ) {n' : Node}
        → s.alive i ≡ true
        → (step : NodeStep (s.nodes i) n') → Allowed s i step
        → Step s (record s { nodes = update s.nodes i n' })
    fails : (i : ℕ) → Step s (record s { alive = update s.alive i false })

  -- A chain of `count` nodes before its first write, each connected to its neighbors.
  abbrev pub fresh : ℕ → ℕ → Node
  fresh count i = record (new_server (address i) (address i)) {
    predecessor = if ltb 0 i then some (address (i - 1)) else none;
    successor = if ltb (i + 1) count then some (address (i + 1)) else none;
  }

  abbrev pub formed : ℕ → System
  formed count = record { nodes = fresh count; alive = λ i. ltb i count }

  pub data Reach (count : ℕ) : System → Type 0 where
    start : Reach count (formed count)
    next : {s t : System} → Reach count s → Step s t → Reach count t
