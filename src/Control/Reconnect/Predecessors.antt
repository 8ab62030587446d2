-- ===== src/Control/Reconnect/Predecessors.antt =====
-- pkg/control/control_heartbeat.go, `updateChain` and `reconnectChain`: after dead nodes are removed,
-- each node that is left is told of its new predecessor, if that has changed.
use text.Mathlib.TextEquality.{eq_iff}
use mathlib.Core.List.{append-nil}
use razpravljalnica.Base.{
  nat_eq, string_eq, Bool, Bool-cases, List, Option, String, [], arith, false, if◌then◌else◌, inl,
  inr, none, refl, some, true, ◌++◌, ◌==◌, ◌∷◌, ◌≡◌,
}
use razpravljalnica.Control.Nodes.{is_in}
use razpravljalnica.Control.Heartbeat.{Reconnect, link, walk, reconnect_neighbors}
use razpravljalnica.Control.Chain.{Distinct}
use razpravljalnica.Control.Reconnect.{keep, first_of, pred_in, calls, told_pred, settled}
use razpravljalnica.Control.Reconnect.Walk.{
  walk-dead, walk-first, walk-near, walk-across, is_in-keep,
}

pub told_pred-link :
    (k q : String) (p : Option String) (rs : List Reconnect)
    → told_pred k (calls (link p (some q) ∷ rs))
      ≡ (if q == k then p ∷ told_pred k (calls rs) else told_pred k (calls rs))
unfolding reconnect_neighbors
told_pred-link k q none rs = refl
told_pred-link k q (some p) rs = refl

pub told_pred-last : (k : String) (p : Option String) → told_pred k (calls (link p none ∷ [])) ≡ []
unfolding reconnect_neighbors
told_pred-last k none = refl
told_pred-last k (some p) = refl

-- A node that is not there is told nothing.
pub told_pred-others :
    (alive : String → Bool) (k : String) (last : Option String) (gap : Bool) (ids : List String)
    → is_in k ids ≡ false
    → told_pred k (calls (walk alive last gap ids)) ≡ []
unfolding walk
told_pred-others alive k none true [] out = refl
told_pred-others alive k none false [] out = refl
told_pred-others alive k (some l) true [] out = told_pred-last k (some l)
told_pred-others alive k (some l) false [] out = refl
told_pred-others alive k last gap (id ∷ ids) out = elim (Bool-cases (alive id)) [
  | inr dead ↦
      rw (walk-dead alive id ids last gap dead)
        (told_pred-others alive k last true ids (ground arith))
  | inl lives ↦ step last gap lives (λ g. told_pred-others alive k (some id) g ids (ground arith))
]
  where
    step :
        (last : Option String) (gap : Bool)
        → alive id ≡ true
        → ((g : Bool) → told_pred k (calls (walk alive (some id) g ids)) ≡ [])
        → told_pred k (calls (walk alive last gap (id ∷ ids))) ≡ []
    step none gap lives rest = rw (walk-first alive id ids gap lives) (rest gap)
    step (some l) false lives rest = rw (walk-near alive id ids l lives) (rest false)
    step (some l) true lives rest =
        rw (walk-across alive id ids l lives) (
          ground (arith, told_pred-link k id (some l) (walk alive (some id) false ids), rest false))

-- Behind a node that is alive, each node settles on its predecessor among those that are.
pub settled-walk_behind :
    (alive : String → Bool) (k l : String) (q : Option String) (gap : Bool) (ids : List String)
    → Distinct ids
    → is_in k (keep alive ids) ≡ true
    → settled
        (told_pred k (calls (walk alive (some l) gap ids)))
        (pred_in (if gap then q else some l) k ids)
      ≡ some (pred_in (some l) k (keep alive ids))
settled-walk_behind alive k l q gap [] d there = cc
settled-walk_behind alive k l q gap (id ∷ ids) d there = elim (Bool-cases (alive id)) [
  | inr dead ↦
      let there_later : is_in k (keep alive ids) ≡ true = ground arith in
      let apart : (id == k) ≡ false = ground (arith, is_in-keep alive k ids, eq_iff id k) in
      rw (walk-dead alive id ids (some l) gap dead, dead, apart)
        (settled-walk_behind alive k l (some id) true ids d.1 there_later)
  | inl lives ↦ elim (Bool-cases (id == k)) [
    | inl own ↦
        let same : id ≡ k = ground (arith, eq_iff id k) in
        let out : is_in k ids ≡ false = ground arith in
        let silent : told_pred k (calls (walk alive (some id) false ids)) ≡ [] =
          told_pred-others alive k (some id) false ids out in
        at_own gap lives own silent
    | inr apart ↦
        let there_later : is_in k (keep alive ids) ≡ true = ground arith in
        later gap lives apart (settled-walk_behind alive k id none false ids d.1 there_later)
  ]
]
  where
    at_own :
        (gap : Bool)
        → alive id ≡ true
        → (id == k) ≡ true
        → told_pred k (calls (walk alive (some id) false ids)) ≡ []
        → settled
            (told_pred k (calls (walk alive (some l) gap (id ∷ ids))))
            (pred_in (if gap then q else some l) k (id ∷ ids))
          ≡ some (pred_in (some l) k (keep alive (id ∷ ids)))
    at_own false lives own silent = rw (walk-near alive id ids l lives, lives, own, silent) refl
    at_own true lives own silent =
        rw
          (
            walk-across alive id ids l lives,
            told_pred-link k id (some l) (walk alive (some id) false ids),
            lives,
            own,
            silent,
          )
          refl

    later :
        (gap : Bool)
        → alive id ≡ true
        → (id == k) ≡ false
        → settled (told_pred k (calls (walk alive (some id) false ids))) (pred_in (some id) k ids)
          ≡ some (pred_in (some id) k (keep alive ids))
        → settled
            (told_pred k (calls (walk alive (some l) gap (id ∷ ids))))
            (pred_in (if gap then q else some l) k (id ∷ ids))
          ≡ some (pred_in (some l) k (keep alive (id ∷ ids)))
    later false lives apart rest = rw (walk-near alive id ids l lives, lives, apart) rest
    later true lives apart rest =
        rw
          (
            walk-across alive id ids l lives,
            told_pred-link k id (some l) (walk alive (some id) false ids),
            lives,
            apart,
          )
          rest

-- Where the HEAD died, the new HEAD is told that it has none before it, and each node behind it
-- settles on its predecessor.
pub settled-walk_headless :
    (alive : String → Bool) (k h : String) (q : Option String) (ids : List String)
    → Distinct ids
    → is_in k (keep alive ids) ≡ true
    → first_of (keep alive ids) ≡ some h
    → settled
        (told_pred k (calls (walk alive none true ids)) ++ (if h == k then none ∷ [] else []))
        (pred_in q k ids)
      ≡ some (pred_in none k (keep alive ids))
settled-walk_headless alive k h q [] d there first = cc
settled-walk_headless alive k h q (id ∷ ids) d there first = elim (Bool-cases (alive id)) [
  | inr dead ↦
      let there_later : is_in k (keep alive ids) ≡ true = ground arith in
      let apart : (id == k) ≡ false = ground (arith, is_in-keep alive k ids, eq_iff id k) in
      rw (walk-dead alive id ids none true dead, dead, apart)
        (settled-walk_headless alive k h (some id) ids d.1 there_later (ground arith))
  | inl lives ↦
      let head : id ≡ h = ground arith in
      elim (Bool-cases (id == k)) [
        | inl own ↦
            let silent : told_pred k (calls (walk alive (some id) true ids)) ≡ [] =
              told_pred-others alive k (some id) true ids (ground (arith, eq_iff id k)) in
            rw (← head, walk-first alive id ids true lives, lives, own, silent) refl
        | inr apart ↦
            let there_later : is_in k (keep alive ids) ≡ true = ground arith in
            rw
              (
                ← head,
                walk-first alive id ids true lives,
                lives,
                apart,
                append-nil (told_pred k (calls (walk alive (some id) true ids))),
              )
              (settled-walk_behind alive k id (some id) true ids d.1 there_later)
      ]
]
