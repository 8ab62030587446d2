-- ===== src/Control/Rotation.antt =====
-- pkg/control/control_subscriptions.go: subscriptions go to the nodes of the chain in turn.
use native.Mathlib.Nat.{mod-lt, mod-add-mod}
use text.Mathlib.TextEquality.{eq_iff}
use razpravljalnica.Dict.{Dict, lookup}
use razpravljalnica.Base.{
  false, nat_eq, string_eq, ℕ, ◌%◌, ◌^◌, ◌+◌, ◌<◌, List, Option, String, [], arith, get_elem?,
  get_elem?-of_lt, length, none, option_map, refl, some, suc, zero, ◌==◌, ◌∷◌, ◌≡◌, ◌∙◌, ap, sym,
}
use razpravljalnica.Int64.{half}
use razpravljalnica.Control.State.{ControlPlane, NodeEntry}
use razpravljalnica.Control.Nodes.{get_subscription_node, before}
use razpravljalnica.Control.Chain.{IsChain}

-- The nodes that the next calls choose; `none` if one fails.
abbrev pub turns : ℕ → ControlPlane → Option (List String)
turns zero cp = some []
turns (suc k) cp = elim (get_subscription_node cp) [
  | none ↦ none
  | some r ↦ elim r.1.0 [ none ↦ none | some id ↦ option_map (λ ids. id ∷ ids) (turns k r.0) ]
]

-- A chain that a call can choose from.
pub record HasTurns (cp : ControlPlane) : Type 0 where
  pub chain_ok : IsChain cp
  pub inhabited : 0 < length cp.chain
  pub small : length cp.chain < half
  pub index : cp.last_control_index < half

nodes-inhabited :
    (cp : ControlPlane) (chain : List String) (nodes : Dict String NodeEntry)
    → IsChain cp
    → cp.chain ≡ chain
    → cp.nodes ≡ nodes
    → 0 < length chain
    → (length nodes == 0) ≡ false
unfolding lookup
nodes-inhabited cp [] nodes v ec en long = absurd (omega (arith, long))
nodes-inhabited cp (x ∷ chain) [] v ec en long = absurd (ground (arith, v.registered x, eq_iff x x))
nodes-inhabited cp (x ∷ chain) (e ∷ nodes) v ec en long = ground arith

one_turn :
    (cp : ControlPlane)
    → HasTurns cp
    → let i = (cp.last_control_index + 1) % length cp.chain in
      (id : String) × (get_elem? cp.chain i ≡ some id)
      × (get_subscription_node cp ≡ some (record cp { last_control_index = i }, (some id, none)))
unfolding get_subscription_node
one_turn cp v =
    let i : ℕ = (cp.last_control_index + 1) % length cp.chain in
    let (id, at) = get_elem?-of_lt cp.chain i (mod-lt (cp.last_control_index + 1) v.inhabited) in
    let word : (cp.last_control_index + 1) % 2 ^ 64 ≡ cp.last_control_index + 1 =
      omega (arith, v.index) in
    let some_nodes : (length cp.nodes == 0) ≡ false =
      nodes-inhabited cp cp.chain cp.nodes v.chain_ok refl refl v.inhabited in
    let some_chain : (length cp.chain == 0) ≡ false = ground (arith, v.inhabited) in
    (
      id,
      at,
      rw (get_subscription_node, some_nodes, some_chain, word, at)
          (ap (λ n. some (record cp { last_control_index = n % length cp.chain }, (some id, none)))
            word),
    )

-- A turn leaves a chain that a call can choose from.
turned : (cp : ControlPlane) → HasTurns cp → ControlPlane
turned cp v = record cp { last_control_index = (cp.last_control_index + 1) % length cp.chain }

turned-HasTurns : (cp : ControlPlane) (v : HasTurns cp) → HasTurns (turned cp v)
unfolding turned
turned-HasTurns cp v = record {
  chain_ok = record {
    distinct = v.chain_ok.distinct;
    registered = v.chain_ok.registered;
    ids = v.chain_ok.ids;
    named = v.chain_ok.named;
  };
  inhabited = v.inhabited;
  small = v.small;
  index = omega (arith, mod-lt (cp.last_control_index + 1) v.inhabited, v.small);
}

turns-suc :
    (k : ℕ) (cp : ControlPlane) (v : HasTurns cp)
    → turns (suc k) cp ≡ option_map (λ ids. (one_turn cp v).0 ∷ ids) (turns k (turned cp v))
unfolding turned
turns-suc k cp v = rw (turns, (one_turn cp v).2) refl

turns-some :
    (k : ℕ) (cp : ControlPlane) → HasTurns cp → (ids : List String) × (turns k cp ≡ some ids)
turns-some zero cp v = ([], refl)
turns-some (suc k) cp v =
    let (ids, rest) = turns-some k (turned cp v) (turned-HasTurns cp v) in
    (
      (one_turn cp v).0 ∷ ids,
      turns-suc k cp v ∙ ap (option_map (λ ids. (one_turn cp v).0 ∷ ids)) rest,
    )

position : (i j n : ℕ) → ((i + 1) % n + 1 + j) % n ≡ (i + 1 + suc j) % n
position i j n =
    let left : (i + 1) % n + 1 + j ≡ (i + 1) % n + suc j = omega arith in
    ap (λ m. m % n) left ∙ mod-add-mod (i + 1) n (suc j)

-- On a chain that is not empty, with a length and an index below 2^63, the next calls for a
-- subscription node all return, and call number j (from 0) of them chooses the node at position
-- index + 1 + j, modulo the length: the nodes take turns.
pub get_subscription_node-rotates :
    (k j : ℕ) (cp : ControlPlane)
    → HasTurns cp
    → j < k
    → (ids : List String) × (turns k cp ≡ some ids)
      × (get_elem? ids j ≡ get_elem? cp.chain ((cp.last_control_index + 1 + j) % length cp.chain))
unfolding turned
get_subscription_node-rotates zero j cp v before = absurd (omega (arith, before))
get_subscription_node-rotates (suc k) zero cp v before =
    let (others, later) = turns-some k (turned cp v) (turned-HasTurns cp v) in
    let here : cp.last_control_index + 1 + 0 ≡ cp.last_control_index + 1 = omega arith in
    (
      (one_turn cp v).0 ∷ others,
      turns-suc k cp v ∙ ap (option_map (λ ids. (one_turn cp v).0 ∷ ids)) later,
      sym (ap (λ m. get_elem? cp.chain (m % length cp.chain)) here ∙ (one_turn cp v).1),
    )
get_subscription_node-rotates (suc k) (suc j) cp v before =
    let (ids, rest, at) =
      get_subscription_node-rotates k j (turned cp v) (turned-HasTurns cp v)
        (omega (arith, before)) in
    (
      (one_turn cp v).0 ∷ ids,
      turns-suc k cp v ∙ ap (option_map (λ ids. (one_turn cp v).0 ∷ ids)) rest,
      at ∙ ap (get_elem? cp.chain) (position cp.last_control_index j (length cp.chain)),
    )
