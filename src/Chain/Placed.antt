-- ===== src/Chain/Placed.antt =====
-- pkg/server: the place of a node in its chain. What it knows of its neighbors, and the calls that
-- it has sent, lead to nodes with none alive in between.
use razpravljalnica.Base.{
  nat_eq, ℕ, Bool, String, arith, get_elem?, inl, inr, none, some, ◌<◌, ◌≡◌, false,
}
use razpravljalnica.Event.{Event}
use razpravljalnica.Node.State.{Node, Rpc, replicate_event, acknowledge_event}
use razpravljalnica.Chain.{Clear, NoneBefore, NoneAfter, update}
use razpravljalnica.Chain.Links.{Goes, Effect}

-- A failure takes nothing from what is known of nodes that are not alive.
pub failed-dead : (alive : ℕ → Bool) (i j : ℕ) → alive j ≡ false → update alive i false j ≡ false
failed-dead alive i j h = ground arith

module _ (address : ℕ → String) where
  abbrev pub Before : (ℕ → Bool) → ℕ → String → Type 0
  Before alive i a = (k : ℕ) × (a ≡ address k) × (k < i) × Clear alive k i

  abbrev pub After : (ℕ → Bool) → ℕ → String → Type 0
  After alive i a = (k : ℕ) × (a ≡ address k) × (i < k) × Clear alive i k

  -- Where a call leads.
  abbrev pub Leads : (ℕ → Bool) → ℕ → Rpc → Type 0
  Leads alive i (replicate_event a e) = After alive i a
  Leads alive i (acknowledge_event a seq) = Before alive i a

  pub record IsPlaced (alive : ℕ → Bool) (i : ℕ) (n : Node) : Type 0 where
    pub first : n.predecessor ≡ none → NoneBefore alive i
    pub last : n.successor ≡ none → NoneAfter alive i
    pub before : (a : String) → n.predecessor ≡ some a → Before alive i a
    pub after : (a : String) → n.successor ≡ some a → After alive i a
    pub leads : (at : ℕ) (call : Rpc) → get_elem? n.sent at ≡ some call → Leads alive i call

  Goes-Leads :
      (alive : ℕ → Bool) (i : ℕ) (n : Node) (call : Rpc)
      → ((a : String) → n.predecessor ≡ some a → Before alive i a)
      → ((a : String) → n.successor ≡ some a → After alive i a)
      → Goes n call
      → Leads alive i call
  Goes-Leads alive i n (replicate_event a e) before after h = after a h
  Goes-Leads alive i n (acknowledge_event a seq) before after h = before a h

  pub Effect-IsPlaced :
      {P : ℕ → Type 0} {E : ℕ → Event → Type 0} (alive : ℕ → Bool) (i : ℕ) (n n' : Node)
      → Effect P E n n'
      → IsPlaced alive i n
      → IsPlaced alive i n'
  Effect-IsPlaced alive i n n' f v =
      let before : (a : String) → n'.predecessor ≡ some a → Before alive i a =
        λ a h. v.before a (rw (← f.same_predecessor) h) in
      let after : (a : String) → n'.successor ≡ some a → After alive i a =
        λ a h. v.after a (rw (← f.same_successor) h) in
      record {
        first = λ h. v.first (rw (← f.same_predecessor) h);
        last = λ h. v.last (rw (← f.same_successor) h);
        before = before;
        after = after;
        leads = λ at call h. elim (f.sends at call h) [
          | inl old ↦ v.leads at call old
          | inr (goes, _) ↦ Goes-Leads alive i n' call before after goes
        ];
      }

  Leads-fails :
      (alive : ℕ → Bool) (i dead : ℕ) (call : Rpc)
      → Leads alive i call
      → Leads (update alive dead false) i call
  Leads-fails alive i dead (replicate_event a e) (k, at, order, clear) =
      (k, at, order, λ j p q. failed-dead alive dead j (clear j p q))
  Leads-fails alive i dead (acknowledge_event a seq) (k, at, order, clear) =
      (k, at, order, λ j p q. failed-dead alive dead j (clear j p q))

  -- The failure of a node leaves every place as it is.
  pub IsPlaced-fails :
      (alive : ℕ → Bool) (dead i : ℕ) (n : Node)
      → IsPlaced alive i n
      → IsPlaced (update alive dead false) i n
  IsPlaced-fails alive dead i n v = record {
    first = λ h j p. failed-dead alive dead j (v.first h j p);
    last = λ h j p. failed-dead alive dead j (v.last h j p);
    before = λ a h. Leads-fails alive i dead (acknowledge_event a 0) (v.before a h);
    after = λ a h. after_fails a (v.after a h);
    leads = λ at call h. Leads-fails alive i dead call (v.leads at call h);
  }
    where
      after_fails : (a : String) → After alive i a → After (update alive dead false) i a
      after_fails a (k, at, order, clear) =
          (k, at, order, λ j p q. failed-dead alive dead j (clear j p q))
