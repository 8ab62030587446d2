-- ===== src/Control/Reconnect/Successors.antt =====
-- pkg/control/control_heartbeat.go, `updateChain` and `reconnectChain`: after dead nodes are removed,
-- each node that is left is told of its new successor, if that has changed.
use text.Mathlib.TextEquality.{eq_iff}
use razpravljalnica.Base.{
  nat_eq, string_eq, Bool, List, Option, String, [], arith, false, if◌then◌else◌, none, not, refl,
  some, true, ◌++◌, ◌∷◌, ◌≡◌, ◌∙◌, ap, sym, subst,
}
use mathlib.Core.List.{append_assoc, append-nil}
use razpravljalnica.Dict.{Dict, erase}
use razpravljalnica.Control.State.{ControlPlane, NodeEntry}
use razpravljalnica.Control.Nodes.{is_in, sweep, update_chain}
use razpravljalnica.Control.Heartbeat.{
  Reconnect, link, NeighborCall, set_predecessor, set_successor, reconnect_neighbors,
  reconnect_chain, is_alive, is_empty,
}
use razpravljalnica.Control.Commands.{lookup-sweep}
use razpravljalnica.Control.Chain.{IsChain}
use razpravljalnica.Control.Reconnect.{keep, succ_in, calls, told, settled}
use razpravljalnica.Control.Reconnect.Walk.{settled-walk}

told-append : (k : String) (cs ds : List NeighborCall) → told k (cs ++ ds) ≡ told k cs ++ told k ds
told-append k [] ds = refl
told-append k (set_successor n v ∷ cs) ds = ground (arith, told-append k cs ds)
told-append k (set_predecessor n v ∷ cs) ds = told-append k cs ds

pub calls-append : (rs qs : List Reconnect) → calls (rs ++ qs) ≡ calls rs ++ calls qs
calls-append [] qs = refl
calls-append (r ∷ rs) qs =
    ap (λ cs. reconnect_neighbors r ++ cs) (calls-append rs qs)
    ∙ sym (append_assoc (reconnect_neighbors r) (calls rs) (calls qs))

-- What is left of a chain after a removal is what is alive.
keep-sweep :
    (alive : String → Bool) (rm ids : List String) (nodes : Dict String NodeEntry)
    → ((y : String) → is_in y ids ≡ true → alive y ≡ not (is_in y rm))
    → (sweep rm ids nodes).0 ≡ keep alive ids
unfolding sweep
keep-sweep alive rm [] nodes agree = refl
keep-sweep alive rm (id ∷ ids) nodes agree =
    let rest =
      keep-sweep alive rm ids (if is_in id rm then erase id nodes else nodes)
        λ y h. agree y (ground arith) in
    let here : alive id ≡ not (is_in id rm) = agree id (ground (arith, eq_iff id id)) in
    ground (arith, rest, here)

module _ (removed : List String) (cp : ControlPlane) (v : IsChain cp) where
  pub alive_agree :
      (y : String)
      → is_in y cp.chain ≡ true
      → is_alive removed (update_chain removed cp) y ≡ not (is_in y removed)
  unfolding update_chain
  alive_agree y h = ground (arith, lookup-sweep removed cp.chain cp.nodes y, v.registered y)

  pub chain-update_chain :
      (update_chain removed cp).chain ≡ keep (is_alive removed (update_chain removed cp)) cp.chain
  unfolding update_chain
  chain-update_chain =
      keep-sweep (is_alive removed (update_chain removed cp)) removed cp.chain cp.nodes alive_agree

told-silent :
    (k : String) (rs qs : List Reconnect)
    → told k (calls qs) ≡ []
    → told k (calls (rs ++ qs)) ≡ told k (calls rs)
told-silent k rs qs silent =
    ap (told k) (calls-append rs qs)
    ∙ told-append k (calls rs) (calls qs)
    ∙ ap (λ vs. told k (calls rs) ++ vs) silent
    ∙ append-nil (told k (calls rs))

-- The reconnection of a new HEAD tells nobody of a successor.
told-head :
    (k : String) (a : Bool) (q : Option String)
    → told k (calls (if a then link none q ∷ [] else [])) ≡ []
unfolding reconnect_neighbors
told-head k false q = refl
told-head k true none = refl
told-head k true (some id) = refl

-- After nodes are removed from a chain, each node that is left is told of a successor by at most
-- one call, and its successor, the one it was told of or else its old one, is the node after it
-- in the new chain.
pub reconnect_chain-succ :
    (removed : List String) (cp : ControlPlane) (k : String)
    → IsChain cp
    → is_in k (update_chain removed cp).chain ≡ true
    → settled
        (told k (calls (reconnect_chain cp.chain removed (update_chain removed cp))))
        (succ_in k cp.chain)
      ≡ some (succ_in k (update_chain removed cp).chain)
unfolding reconnect_chain
reconnect_chain-succ removed cp k v there =
    let alive = is_alive removed (update_chain removed cp) in
    let kept : (update_chain removed cp).chain ≡ keep alive cp.chain =
      chain-update_chain removed cp v in
    let of_walk =
      settled-walk alive k none false cp.chain (λ e. cc) v.distinct
        (subst (λ ids. is_in k ids ≡ true) kept there) in
    ap (λ vs. settled vs (succ_in k cp.chain))
      (told-silent k _ _ (told-head k (is_empty (update_chain removed cp).chain) none)
        ∙ told-silent k _ _ (told-head k _ _))
    ∙ of_walk
    ∙ ap (λ ids. some (succ_in k ids)) (sym kept)
