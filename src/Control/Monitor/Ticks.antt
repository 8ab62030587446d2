-- ===== src/Control/Monitor/Ticks.antt =====
-- pkg/control/control_heartbeat.go: whom a tick of the monitor removes.
use text.Mathlib.TextEquality.{eq_iff}
use razpravljalnica.Base.{
  nat_eq, string_eq, ℕ, Bool, List, String, [], arith, false, if◌then◌else◌, inl, inr, is_some,
  none, not, option_map, refl, some, true, ◌&&◌, ◌∷◌, ◌≡◌, Option-cases, sym, ◌∙◌, ap,
}
use razpravljalnica.Dict.{Dict, lookup, insert, erase, lookup-insert}
use razpravljalnica.Event.{NodeInfo}
use razpravljalnica.Control.State.{NodeEntry, ControlPlane}
use razpravljalnica.Control.Nodes.{is_in, sweep, update_chain}
use razpravljalnica.Control.Heartbeat.{
  Reconnect, is_late, find_dead, identify_dead_nodes, reconnect_chain,
}
use razpravljalnica.Control.Chain.{Distinct, IsChain}
use razpravljalnica.Control.Commands.{update_chain-IsChain}
use razpravljalnica.Control.Reconnect.{keep}
use razpravljalnica.Control.Monitor.{remove_nodes_via_raft, monitor_tick}

-- The node has sent a heartbeat, and none for too long.
abbrev pub is_dead : ℕ → Dict String NodeEntry → String → Bool
is_dead now nodes id = elim (lookup id nodes) [
  | none ↦ false
  | some entry ↦ elim entry.last_heartbeat [ none ↦ false | some last ↦ is_late now last ]
]

abbrev info_of : NodeEntry → NodeInfo
info_of e = e.info

-- What the search for dead nodes finds, and leaves.
record Found (now : ℕ) (ids : List String) (nodes nodes' : Dict String NodeEntry)
    (dead : List String) : Type 0 where
  finds : (id : String) → is_in id dead ≡ is_in id ids && is_dead now nodes id
  keeps :
      (id : String) → option_map info_of (lookup id nodes') ≡ option_map info_of (lookup id nodes)

stamped_Found :
    (now : ℕ) (x : String) (ids : List String) (nodes nodes' : Dict String NodeEntry)
    (dead : List String) (entry : NodeEntry)
    → Distinct (x ∷ ids)
    → lookup x nodes ≡ some entry
    → entry.last_heartbeat ≡ none
    → Found now ids (insert x (record entry { last_heartbeat = some now }) nodes) nodes' dead
    → Found now (x ∷ ids) nodes nodes' dead
stamped_Found now x ids nodes nodes' dead entry d at new f = record {
  finds = λ id. ground (
    arith,
    f.finds id,
    lookup-insert x id (record entry { last_heartbeat = some now }) nodes,
    eq_iff x id,
    d.0,
  );
  keeps = λ id. ground (
    arith,
    f.keeps id,
    lookup-insert x id (record entry { last_heartbeat = some now }) nodes,
    eq_iff x id,
  );
}

late_Found :
    (now : ℕ) (x : String) (ids : List String) (nodes nodes' : Dict String NodeEntry)
    (dead : List String) (entry : NodeEntry) (last : ℕ)
    → Distinct (x ∷ ids)
    → lookup x nodes ≡ some entry
    → entry.last_heartbeat ≡ some last
    → Found now ids nodes nodes' dead
    → Found now (x ∷ ids) nodes nodes' (if is_late now last then x ∷ dead else dead)
late_Found now x ids nodes nodes' dead entry last d at old f = record {
  finds = λ id. ground (arith, f.finds id, eq_iff x id, d.0);
  keeps = f.keeps;
}

find_dead-new :
    (now : ℕ) (x : String) (ids : List String) (nodes : Dict String NodeEntry) (entry : NodeEntry)
    → lookup x nodes ≡ some entry
    → entry.last_heartbeat ≡ none
    → find_dead now (x ∷ ids) nodes
      ≡ find_dead now ids (insert x (record entry { last_heartbeat = some now }) nodes)
unfolding find_dead
find_dead-new now x ids nodes entry at new = ground arith

find_dead-old :
    (now : ℕ) (x : String) (ids : List String) (nodes : Dict String NodeEntry) (entry : NodeEntry)
    (last : ℕ)
    → lookup x nodes ≡ some entry
    → entry.last_heartbeat ≡ some last
    → find_dead now (x ∷ ids) nodes
      ≡ option_map
          (λ (r : Dict String NodeEntry × List String).
            (r.0, if is_late now last then x ∷ r.1 else r.1))
          (find_dead now ids nodes)
unfolding find_dead
find_dead-old now x ids nodes entry last at old = ground arith

find_dead_lem :
    (now : ℕ) (ids : List String) (nodes : Dict String NodeEntry)
    → Distinct ids
    → ((id : String) → is_in id ids ≡ true → is_some (lookup id nodes) ≡ true)
    → (nodes' : Dict String NodeEntry) × (dead : List String) × (find_dead now ids nodes
        ≡ some (nodes', dead))
      × Found now ids nodes nodes' dead
unfolding find_dead
find_dead_lem now [] nodes d there =
    (nodes, [], refl, record { finds = λ id. refl; keeps = λ id. refl })
find_dead_lem now (x ∷ ids) nodes d there = elim (Option-cases (lookup x nodes)) [
  | inl missing ↦ absurd (ground (arith, there x, eq_iff x x))
  | inr (entry, at) ↦ elim (Option-cases entry.last_heartbeat) [
    | inl new ↦
        let stamped : NodeEntry = record entry { last_heartbeat = some now } in
        let nodes1 : Dict String NodeEntry = insert x stamped nodes in
        let (nodes', dead, found, f) =
          find_dead_lem now ids nodes1 d.1
            (λ id inside. ground (arith, there id, lookup-insert x id stamped nodes)) in
        (
          nodes',
          dead,
          find_dead-new now x ids nodes entry at new ∙ found,
          stamped_Found now x ids nodes nodes' dead entry d at new f,
        )
    | inr (last, old) ↦
        let (nodes', dead, found, f) =
          find_dead_lem now ids nodes d.1 (λ id inside. ground (arith, there id)) in
        (
          nodes',
          if is_late now last then x ∷ dead else dead,
          rw (find_dead-old now x ids nodes entry last at old, found) refl,
          late_Found now x ids nodes nodes' dead entry last d at old f,
        )
  ]
]

sweep-keep :
    (rm ids : List String) (nodes : Dict String NodeEntry)
    → (sweep rm ids nodes).0 ≡ keep (λ id. not (is_in id rm)) ids
unfolding sweep
sweep-keep rm [] nodes = refl
sweep-keep rm (x ∷ ids) nodes =
    ground (arith, sweep-keep rm ids nodes, sweep-keep rm ids (erase x nodes))

keep-same :
    (f g : String → Bool) (ids : List String)
    → ((id : String) → is_in id ids ≡ true → f id ≡ g id)
    → keep f ids ≡ keep g ids
keep-same f g [] h = refl
keep-same f g (x ∷ ids) h =
    ground (arith, h x, eq_iff x x, keep-same f g ids (λ id inside. ground (arith, h id)))

keep-all : (ids : List String) → keep (λ id. true) ids ≡ ids
keep-all [] = refl
keep-all (x ∷ ids) = ap (λ rest. x ∷ rest) (keep-all ids)

update_chain-keep :
    (rm : List String) (cp : ControlPlane)
    → (update_chain rm cp).chain ≡ keep (λ id. not (is_in id rm)) cp.chain
unfolding update_chain
update_chain-keep rm cp = sweep-keep rm cp.chain cp.nodes

-- Entries with the same information are entries of the same chain.
stamped-IsChain :
    (cp : ControlPlane) (nodes' : Dict String NodeEntry)
    → IsChain cp
    → ((id : String)
        → option_map info_of (lookup id nodes') ≡ option_map info_of (lookup id cp.nodes))
    → IsChain (record cp { nodes = nodes' })
stamped-IsChain cp nodes' v same = record {
  distinct = v.distinct;
  registered = λ id. ground (arith, v.registered id, same id);
  ids = λ id e h. elim (Option-cases (lookup id cp.nodes)) [
    | inl gone ↦ absurd (ground (arith, same id))
    | inr (before, at) ↦ ground (arith, same id, v.ids id before)
  ];
  named = v.named;
}

-- On a chain that lists the registered nodes, each once, a tick of the monitor at the leader,
-- with Raft working, returns; the chain is then the old one without the nodes whose heartbeat is
-- late, in the same order, and lists the registered nodes, each once.
pub monitor_tick_lem :
    (now : ℕ) (cp : ControlPlane)
    → IsChain cp
    → (cp' : ControlPlane) × (calls : List Reconnect) × (monitor_tick true none now cp
        ≡ some (cp', calls))
      × IsChain cp'
      × (cp'.chain ≡ keep (λ id. not (is_dead now cp.nodes id)) cp.chain)
unfolding monitor_tick identify_dead_nodes remove_nodes_via_raft
monitor_tick_lem now cp v =
    let (nodes', dead, found, f) =
      find_dead_lem now cp.chain cp.nodes v.distinct
        (λ id inside. ground (arith, v.registered id)) in
    let stamped : ControlPlane = record cp { nodes = nodes' } in
    let stamped_v : IsChain stamped = stamped-IsChain cp nodes' v f.keeps in
    let kept : keep (λ id. not (is_in id dead)) cp.chain
        ≡ keep (λ id. not (is_dead now cp.nodes id)) cp.chain =
      keep-same _ _ cp.chain (λ id inside. ground (arith, f.finds id)) in
    by_dead dead nodes' found stamped_v kept
  where
    by_dead :
        (dead : List String) (nodes' : Dict String NodeEntry)
        → find_dead now cp.chain cp.nodes ≡ some (nodes', dead)
        → IsChain (record cp { nodes = nodes' })
        → keep (λ id. not (is_in id dead)) cp.chain
          ≡ keep (λ id. not (is_dead now cp.nodes id)) cp.chain
        → (cp' : ControlPlane) × (calls : List Reconnect) × (monitor_tick true none now cp
            ≡ some (cp', calls))
          × IsChain cp'
          × (cp'.chain ≡ keep (λ id. not (is_dead now cp.nodes id)) cp.chain)
    by_dead [] nodes' found w kept =
        (record cp { nodes = nodes' }, [], rw found refl, w, sym (keep-all cp.chain) ∙ kept)
    by_dead (x ∷ dead) nodes' found w kept =
        let stamped : ControlPlane = record cp { nodes = nodes' } in
        let removed : ControlPlane = update_chain (x ∷ dead) stamped in
        (
          removed,
          reconnect_chain cp.chain (x ∷ dead) removed,
          rw found refl,
          update_chain-IsChain (x ∷ dead) stamped w,
          update_chain-keep (x ∷ dead) stamped ∙ kept,
        )
