-- ===== src/Control/Chain.antt =====
-- pkg/control: the chain lists the registered nodes, each once, and every command keeps that; no
-- command panics on such a state (control_nodes.go, control_heartbeat.go, control_subscriptions.go).
use text.Mathlib.TextEquality.{eq_iff}
use razpravljalnica.Base.{
  nat_eq, string_eq, ℕ, List, String, [], arith, false, get_elem?, if◌then◌else◌, is_some, none,
  refl, some, suc, true, zero, ◌++◌, ◌==◌, ◌||◌, ◌∷◌, ◌≡◌,
}
use razpravljalnica.Dict.{lookup, lookup-insert}
use razpravljalnica.Control.State.{
  NodeEntry, ControlPlane, new_control_plane, append_node, find_index, remove_at,
}
use razpravljalnica.Control.Nodes.{is_in}

-- No id stands in the list twice.
abbrev pub Distinct : List String → Type 0
Distinct [] = Unit {0}
Distinct (x ∷ xs) = (is_in x xs ≡ false) × Distinct xs

pub record IsChain (cp : ControlPlane) : Type 0 where
  pub distinct : Distinct cp.chain
  pub registered : (id : String) → is_in id cp.chain ≡ is_some (lookup id cp.nodes)
  pub ids : (id : String) (e : NodeEntry) → lookup id cp.nodes ≡ some e → e.info.node_id ≡ id
  pub named : is_in "" cp.chain ≡ false

pub new_control_plane-IsChain : IsChain new_control_plane
unfolding new_control_plane lookup
new_control_plane-IsChain = record {
  distinct = tt;
  registered = λ id. refl;
  ids = λ id e h. cc;
  named = refl;
}

is_in-snoc : (x y : String) (xs : List String) → is_in x (xs ++ y ∷ []) ≡ is_in x xs || y == x
is_in-snoc x y [] = ground arith
is_in-snoc x y (z ∷ xs) = ground (arith, is_in-snoc x y xs)

Distinct-snoc :
    (y : String) (xs : List String) → Distinct xs → is_in y xs ≡ false → Distinct (xs ++ y ∷ [])
Distinct-snoc y [] d h = (refl, tt)
Distinct-snoc y (x ∷ xs) d h = (
  ground (arith, is_in-snoc x y xs, eq_iff x y, eq_iff y x),
  Distinct-snoc y xs d.1 (ground arith),
)

pub append_node-IsChain :
    (entry : NodeEntry) (cp : ControlPlane)
    → IsChain cp
    → lookup entry.info.node_id cp.nodes ≡ none
    → (entry.info.node_id == "") ≡ false
    → IsChain (append_node entry cp)
unfolding append_node
append_node-IsChain entry cp v new name = record {
  distinct =
      Distinct-snoc entry.info.node_id cp.chain v.distinct
        (ground (arith, v.registered entry.info.node_id));
  registered = λ id. ground (
    arith,
    v.registered id,
    is_in-snoc id entry.info.node_id cp.chain,
    lookup-insert entry.info.node_id id entry cp.nodes,
  );
  ids = λ id e h. ground (
    arith,
    v.ids id e,
    lookup-insert entry.info.node_id id entry cp.nodes,
    eq_iff entry.info.node_id id,
  );
  named = ground (arith, v.named, is_in-snoc "" entry.info.node_id cp.chain);
}

-- The list without the first `x`.
abbrev pub remove_first : String → List String → List String
remove_first x [] = []
remove_first x (y ∷ ys) = let rest = y ∷ remove_first x ys in if y == x then ys else rest

pub remove_at-find_index :
    (x : String) (xs : List String) (i : ℕ)
    → find_index x xs ≡ some i
    → (remove_at i xs ≡ remove_first x xs) × (get_elem? xs i ≡ some x) × (is_in x xs ≡ true)
unfolding remove_at find_index
remove_at-find_index x [] i h = cc
remove_at-find_index x (y ∷ ys) zero h = ground (arith, eq_iff y x)
remove_at-find_index x (y ∷ ys) (suc i) h = ground (arith, eq_iff y x, remove_at-find_index x ys i)

pub is_in-remove_first :
    (x y : String) (xs : List String)
    → Distinct xs
    → is_in y (remove_first x xs) ≡ (if x == y then false else is_in y xs)
is_in-remove_first x y [] d = ground arith
is_in-remove_first x y (z ∷ xs) d =
    ground (arith, is_in-remove_first x y xs d.1, eq_iff x y, eq_iff z x, eq_iff z y)

pub Distinct-remove_first :
    (x : String) (xs : List String) → Distinct xs → Distinct (remove_first x xs)
Distinct-remove_first x [] d = tt
Distinct-remove_first x (y ∷ ys) d =
    ground (arith, Distinct-remove_first x ys d.1, is_in-remove_first x y ys d.1)
