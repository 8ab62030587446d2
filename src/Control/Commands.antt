-- ===== src/Control/Commands.antt =====
-- pkg/control/control_fsm.go, `Apply`: no command panics on a chain that lists the registered nodes,
-- and every command keeps it so.
use text.Mathlib.TextEquality.{eq_iff}
use native.Mathlib.Nat.{mod-lt}
use razpravljalnica.Base.{
  nat_eq, string_eq, ℕ, Bool, Bool-cases, List, Option, Option-cases, String, [], arith, false,
  if◌then◌else◌, inl, inr, none, not, refl, some, subst, sym, true, ◌&&◌, ◌==◌, ◌∷◌, ◌≡◌,
  get_elem?-of_lt, length, ◌%◌, ◌+◌, ◌^◌, ◌<◌,
}
use razpravljalnica.Dict.{Dict, lookup, erase, lookup-erase}
use razpravljalnica.Event.{NodeInfo}
use razpravljalnica.Status.{status, plain, already_exists, invalid_argument, not_found}
use razpravljalnica.Control.State.{
  NodeEntry, ControlPlane, append_node, find_index, find_node_index, remove_at, remove_node,
  last_of, get_tail,
}
use razpravljalnica.Control.Nodes.{
  refuse, between, before, after, is_in, sweep, register_node, unregister_node, update_chain,
  get_subscription_node,
}
use razpravljalnica.Control.Fsm.{
  RaftCommand, Response, apply, op_register, op_subscribe, op_unregister, op_update_chain,
  subscribed, updated,
}
use razpravljalnica.Control.Chain.{
  IsChain, Distinct, append_node-IsChain, remove_at-find_index, is_in-remove_first,
  Distinct-remove_first,
}

-- A step that returns, in a state that is a chain again.
abbrev pub Succeeds {ℓ} : {A : Type ℓ} → Option (ControlPlane × A) → Type ℓ
Succeeds {A = A} o = (cp : ControlPlane) × (a : A) × (o ≡ some (cp, a)) × IsChain cp

is_in-last_of : (x : String) (xs : List String) → is_in (last_of x xs) (x ∷ xs) ≡ true
unfolding last_of
is_in-last_of x [] = ground (arith, eq_iff x x)
is_in-last_of x (y ∷ ys) = ground (arith, is_in-last_of y ys)

-- The TAIL of a chain that is not empty is registered.
pub get_tail-some :
    (cp : ControlPlane) (x : String) (xs : List String)
    → IsChain cp
    → cp.chain ≡ x ∷ xs
    → (e : NodeEntry) × (get_tail cp ≡ some e) × (e.info.node_id ≡ last_of x xs)
unfolding get_tail
get_tail-some cp x xs v e = elim (Option-cases (lookup (last_of x xs) cp.nodes)) [
  | inl missing ↦ absurd (ground (arith, v.registered (last_of x xs), is_in-last_of x xs))
  | inr (entry, found) ↦ (entry, ground arith, v.ids (last_of x xs) entry found)
]

register_node-Succeeds :
    (dials : String → Bool) (info : NodeInfo) (cp : ControlPlane)
    → IsChain cp
    → Succeeds (register_node dials info cp)
unfolding register_node
register_node-Succeeds dials info cp v = elim (Option-cases (lookup info.node_id cp.nodes)) [
  | inr (old, known) ↦ (cp, refuse (status already_exists), ground arith, v)
  | inl new ↦ elim (Bool-cases (info.node_id == "")) [
    | inl unnamed ↦ (cp, refuse (status invalid_argument), ground arith, v)
    | inr named ↦ elim (Bool-cases (dials info.address)) [
      | inr no_dial ↦ (cp, refuse plain, ground arith, v)
      | inl dial ↦ appended cp.chain refl new named dial
    ]
  ]
]
  where
    entry : NodeEntry
    entry = record { info = info; last_heartbeat = none }

    appended :
        (chain : List String)
        → cp.chain ≡ chain
        → lookup info.node_id cp.nodes ≡ none
        → (info.node_id == "") ≡ false
        → dials info.address ≡ true
        → Succeeds (register_node dials info cp)
    appended [] e new named dial = (
      append_node entry cp,
      between "" "",
      ground arith,
      append_node-IsChain entry cp v new named,
    )
    appended (x ∷ xs) e new named dial =
        let (t, found, _) = get_tail-some cp x xs v e in
        (
          append_node entry cp,
          between t.info.node_id "",
          ground arith,
          append_node-IsChain entry cp v new named,
        )

removed-IsChain :
    (id : String) (i : ℕ) (cp : ControlPlane)
    → IsChain cp
    → find_index id cp.chain ≡ some i
    → IsChain (record cp { chain = remove_at i cp.chain; nodes = erase id cp.nodes })
removed-IsChain id i cp v found =
    let (spec, _, _) = remove_at-find_index id cp.chain i found in
    record {
      distinct = subst Distinct (sym spec) (Distinct-remove_first id cp.chain v.distinct);
      registered = λ y. rw spec (
          ground (
            arith,
            is_in-remove_first id y cp.chain v.distinct,
            v.registered y,
            lookup-erase id y cp.nodes,
          ));
      ids = λ y e h. ground (arith, v.ids y e, lookup-erase id y cp.nodes);
      named = rw spec (ground (arith, is_in-remove_first id "" cp.chain v.distinct, v.named));
    }

unregister_node-Succeeds :
    (info : NodeInfo) (cp : ControlPlane) → IsChain cp → Succeeds (unregister_node info cp)
unfolding unregister_node find_node_index remove_node
unregister_node-Succeeds info cp v = elim (Option-cases (find_index info.node_id cp.chain)) [
  | inl missing ↦ (cp, refuse (status not_found), ground arith, v)
  | inr (i, found) ↦
      let (_, at, member) = remove_at-find_index info.node_id cp.chain i found in
      let (e, entry) = known member in
      (
        record cp { chain = remove_at i cp.chain; nodes = erase info.node_id cp.nodes },
        between (before i cp.chain) (after i cp.chain),
        ground arith,
        removed-IsChain info.node_id i cp v found,
      )
]
  where
    known :
        is_in info.node_id cp.chain ≡ true
        → (e : NodeEntry) × (lookup info.node_id cp.nodes ≡ some e)
    known member = ground (arith, v.registered info.node_id)

is_in-sweep :
    (rm ids : List String) (nodes : Dict String NodeEntry) (y : String)
    → is_in y (sweep rm ids nodes).0 ≡ is_in y ids && not (is_in y rm)
unfolding sweep
is_in-sweep rm [] nodes y = refl
is_in-sweep rm (x ∷ ids) nodes y =
    ground (arith, is_in-sweep rm ids (if is_in x rm then erase x nodes else nodes) y, eq_iff x y)

Distinct-sweep :
    (rm ids : List String) (nodes : Dict String NodeEntry)
    → Distinct ids
    → Distinct (sweep rm ids nodes).0
unfolding sweep
Distinct-sweep rm [] nodes d = tt
Distinct-sweep rm (x ∷ ids) nodes d = ground (
  arith,
  Distinct-sweep rm ids (if is_in x rm then erase x nodes else nodes) d.1,
  is_in-sweep rm ids (if is_in x rm then erase x nodes else nodes) x,
)

pub lookup-sweep :
    (rm ids : List String) (nodes : Dict String NodeEntry) (y : String)
    → lookup y (sweep rm ids nodes).1 ≡ (if is_in y ids && is_in y rm then none else lookup y nodes)
unfolding sweep
lookup-sweep rm [] nodes y = refl
lookup-sweep rm (x ∷ ids) nodes y = ground (
  arith,
  lookup-sweep rm ids (if is_in x rm then erase x nodes else nodes) y,
  lookup-erase x y nodes,
  eq_iff x y,
)

-- A removal of dead nodes keeps the chain.
pub update_chain-IsChain :
    (rm : List String) (cp : ControlPlane) → IsChain cp → IsChain (update_chain rm cp)
unfolding update_chain
update_chain-IsChain rm cp v = record {
  distinct = Distinct-sweep rm cp.chain cp.nodes v.distinct;
  registered = λ y. ground (
    arith,
    is_in-sweep rm cp.chain cp.nodes y,
    lookup-sweep rm cp.chain cp.nodes y,
    v.registered y,
  );
  ids = λ y e h. ground (arith, lookup-sweep rm cp.chain cp.nodes y, v.ids y e);
  named = ground (arith, is_in-sweep rm cp.chain cp.nodes "", v.named);
}

-- A chain is empty just when no node is registered.
nodes-empty :
    (cp : ControlPlane) (nodes : Dict String NodeEntry)
    → IsChain cp
    → cp.nodes ≡ nodes
    → cp.chain ≡ []
    → length nodes ≡ 0
unfolding lookup
nodes-empty cp [] v e empty = refl
nodes-empty cp ((k, x) ∷ m) v e empty = absurd (ground (arith, v.registered k, eq_iff k k))

get_subscription_node-Succeeds :
    (cp : ControlPlane) → IsChain cp → Succeeds (get_subscription_node cp)
unfolding get_subscription_node
get_subscription_node-Succeeds cp v = elim (Bool-cases (length cp.nodes == 0)) [
  | inl none_there ↦ (cp, (none, some (status not_found)), ground arith, v)
  | inr some_there ↦ chosen cp.chain refl some_there
]
  where
    chosen :
        (chain : List String)
        → cp.chain ≡ chain
        → (length cp.nodes == 0) ≡ false
        → Succeeds (get_subscription_node cp)
    chosen [] e some_there = absurd (ground (arith, nodes-empty cp cp.nodes v refl e))
    chosen (x ∷ xs) e some_there =
        let i : ℕ = (cp.last_control_index + 1) % 2 ^ 64 % length cp.chain in
        let inhabited : 0 < length cp.chain = ground arith in
        let (id, at) =
          get_elem?-of_lt cp.chain i (mod-lt ((cp.last_control_index + 1) % 2 ^ 64) inhabited) in
        (
          record cp { last_control_index = i },
          (some id, none),
          ground arith,
          record { distinct = v.distinct; registered = v.registered; ids = v.ids; named = v.named },
        )

-- On a chain that lists the registered nodes, each once, no command of the replicated state
-- machine panics, and every command, also one that is refused, keeps the chain so.
pub apply-IsChain :
    (dials : String → Bool) (command : RaftCommand) (cp : ControlPlane)
    → IsChain cp
    → Succeeds (apply dials command cp)
unfolding apply
apply-IsChain dials (op_register info) cp v =
    let (cp', r, e, w) = register_node-Succeeds dials info cp v in
    (cp', Response.registered r, rw e, w)
apply-IsChain dials (op_unregister info) cp v =
    let (cp', r, e, w) = unregister_node-Succeeds info cp v in (cp', Response.registered r, rw e, w)
apply-IsChain dials (op_update_chain ids) cp v =
    (update_chain ids cp, updated, refl, update_chain-IsChain ids cp v)
apply-IsChain dials op_subscribe cp v =
    let (cp', r, e, w) = get_subscription_node-Succeeds cp v in (cp', subscribed r, rw e, w)
