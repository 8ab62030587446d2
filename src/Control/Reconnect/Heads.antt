-- ===== src/Control/Reconnect/Heads.antt =====
-- pkg/control/control_heartbeat.go, `reconnectChain`, with its case of a HEAD that died: the
-- predecessor of each node that is left.
use text.Mathlib.TextEquality.{eq_iff}
use mathlib.Core.List.{append-nil}
use razpravljalnica.Base.{
  nat_eq, string_eq, Bool, Bool-cases, List, Option, Option-cases, String, [], arith, false,
  if◌then◌else◌, inl, inr, none, not, option_map, refl, some, true, ◌&&◌, ◌++◌, ◌==◌, ◌∷◌, ◌≡◌, ◌∙◌,
  ap, sym, subst,
}
use razpravljalnica.Dict.{lookup}
use razpravljalnica.Control.State.{ControlPlane, get_head}
use razpravljalnica.Control.Nodes.{is_in, update_chain}
use razpravljalnica.Control.Heartbeat.{
  Reconnect, link, walk, NeighborCall, set_predecessor, set_successor, reconnect_chain, is_alive,
  is_empty, head_died,
}
use razpravljalnica.Control.Chain.{IsChain, Distinct}
use razpravljalnica.Control.Commands.{update_chain-IsChain}
use razpravljalnica.Control.Reconnect.{keep, first_of, pred_in, calls, told_pred, settled}
use razpravljalnica.Control.Reconnect.Walk.{walk-dead, walk-first, is_in-keep}
use razpravljalnica.Control.Reconnect.Successors.{calls-append, chain-update_chain, alive_agree}
use razpravljalnica.Control.Reconnect.Predecessors.{
  settled-walk_behind, settled-walk_headless, told_pred-others, told_pred-link,
}

told_pred-append :
    (k : String) (cs ds : List NeighborCall)
    → told_pred k (cs ++ ds) ≡ told_pred k cs ++ told_pred k ds
told_pred-append k [] ds = refl
told_pred-append k (set_successor n v ∷ cs) ds = told_pred-append k cs ds
told_pred-append k (set_predecessor n v ∷ cs) ds = ground (arith, told_pred-append k cs ds)

told_pred-calls :
    (k : String) (rs qs : List Reconnect)
    → told_pred k (calls (rs ++ qs)) ≡ told_pred k (calls rs) ++ told_pred k (calls qs)
told_pred-calls k rs qs =
    ap (told_pred k) (calls-append rs qs) ∙ told_pred-append k (calls rs) (calls qs)

-- A chain whose HEAD is alive.
settled-walk_headed :
    (alive : String → Bool) (k id : String) (ids : List String)
    → alive id ≡ true
    → Distinct (id ∷ ids)
    → is_in k (keep alive (id ∷ ids)) ≡ true
    → settled (told_pred k (calls (walk alive none false (id ∷ ids)))) (pred_in none k (id ∷ ids))
      ≡ some (pred_in none k (keep alive (id ∷ ids)))
settled-walk_headed alive k id ids lives d there = elim (Bool-cases (id == k)) [
  | inl own ↦
      let silent : told_pred k (calls (walk alive (some id) false ids)) ≡ [] =
        told_pred-others alive k (some id) false ids (ground (arith, eq_iff id k)) in
      rw (walk-first alive id ids false lives, lives, own, silent) refl
  | inr apart ↦
      rw (walk-first alive id ids false lives, lives, apart)
        (settled-walk_behind alive k id none false ids d.1 (ground arith))
]

-- The HEAD of a chain that is not empty is registered.
get_head-some :
    (cp : ControlPlane) (k : String)
    → IsChain cp
    → is_in k cp.chain ≡ true
    → (h : String) × (first_of cp.chain ≡ some h)
      × (is_empty cp.chain ≡ false)
      × (option_map (λ entry. entry.info.node_id) (get_head cp) ≡ some h)
unfolding get_head
get_head-some cp k v there = by_chain cp.chain refl
  where
    by_chain :
        (chain : List String)
        → cp.chain ≡ chain
        → (h : String) × (first_of cp.chain ≡ some h)
          × (is_empty cp.chain ≡ false)
          × (option_map (λ entry. entry.info.node_id) (get_head cp) ≡ some h)
    by_chain [] e = absurd (ground arith)
    by_chain (h ∷ rest) e = elim (Option-cases (lookup h cp.nodes)) [
      | inl missing ↦ absurd (ground (arith, v.registered h, eq_iff h h))
      | inr (entry, found) ↦ (h, ground arith, ground arith, ground (arith, v.ids h entry found))
    ]

-- The calls of the walk and of a new HEAD together.
settled-with_head :
    (alive : String → Bool) (removed : List String) (k h : String) (chain : List String)
    → Distinct chain
    → ((y : String) → is_in y chain ≡ true → alive y ≡ not (is_in y removed))
    → is_in k (keep alive chain) ≡ true
    → first_of (keep alive chain) ≡ some h
    → settled
        (told_pred k (calls (walk alive none false chain))
          ++ told_pred k (calls (if head_died chain removed then link none (some h) ∷ [] else [])))
        (pred_in none k chain)
      ≡ some (pred_in none k (keep alive chain))
settled-with_head alive removed k h [] d agree there first = cc
settled-with_head alive removed k h (id ∷ ids) d agree there first =
    let here : alive id ≡ not (is_in id removed) = agree id (ground (arith, eq_iff id id)) in
    elim (Bool-cases (alive id)) [
      | inl lives ↦
          let not_removed : is_in id removed ≡ false = ground arith in
          rw (not_removed, append-nil (told_pred k (calls (walk alive none false (id ∷ ids)))))
            (settled-walk_headed alive k id ids lives d there)
      | inr dead ↦
          let gone : is_in id removed ≡ true = ground arith in
          let there_later : is_in k (keep alive ids) ≡ true = ground arith in
          let apart : (id == k) ≡ false = ground (arith, is_in-keep alive k ids, eq_iff id k) in
          rw (gone, walk-dead alive id ids none false dead, dead, apart, told_pred-link k h none [])
            (settled-walk_headless alive k h (some id) ids d.1 there_later (ground arith))
    ]

-- What the two cases after the walk add to it.
told_pred-cases :
    (k h : String) (rs : List Reconnect) (a e : Bool) (head : Option String)
    → e ≡ false
    → head ≡ some h
    → told_pred k (
        calls (
          rs
          ++ (if a && not e then link none head ∷ [] else [])
          ++ (if e then link none none ∷ [] else [])))
      ≡ told_pred k (calls rs) ++ told_pred k (calls (if a then link none (some h) ∷ [] else []))
told_pred-cases k h rs a true head inhabited is_head = absurd (ground arith)
told_pred-cases k h rs false false head inhabited is_head =
    ap (λ qs. told_pred k (calls qs)) (append-nil (rs ++ [])) ∙ told_pred-calls k rs []
told_pred-cases k h rs true false head inhabited is_head =
    ap (λ qs. told_pred k (calls qs)) (append-nil (rs ++ link none head ∷ []))
    ∙ told_pred-calls k rs (link none head ∷ [])
    ∙ ap (λ o. told_pred k (calls rs) ++ told_pred k (calls (link none o ∷ []))) is_head

-- After nodes are removed from a chain, each node that is left is told of a predecessor by at
-- most one call, and its predecessor, the one it was told of or else its old one, is the node
-- before it in the new chain; a new HEAD is told that it has none.
pub reconnect_chain-pred :
    (removed : List String) (cp : ControlPlane) (k : String)
    → IsChain cp
    → is_in k (update_chain removed cp).chain ≡ true
    → settled
        (told_pred k (calls (reconnect_chain cp.chain removed (update_chain removed cp))))
        (pred_in none k cp.chain)
      ≡ some (pred_in none k (update_chain removed cp).chain)
unfolding reconnect_chain
reconnect_chain-pred removed cp k v there =
    let cp' = update_chain removed cp in
    let alive = is_alive removed cp' in
    let kept : cp'.chain ≡ keep alive cp.chain = chain-update_chain removed cp v in
    let (h, first, inhabited, head) =
      get_head-some cp' k (update_chain-IsChain removed cp v) there in
    let of_walk =
      settled-with_head alive removed k h cp.chain v.distinct (alive_agree removed cp v)
        (subst (λ ids. is_in k ids ≡ true) kept there) (sym (ap first_of kept) ∙ first) in
    ap (λ vs. settled vs (pred_in none k cp.chain))
      (told_pred-cases k h (walk alive none false cp.chain) (head_died cp.chain removed)
        (is_empty cp'.chain) _ inhabited head)
    ∙ of_walk
    ∙ ap (λ ids. some (pred_in none k ids)) (sym kept)
