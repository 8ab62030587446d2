-- ===== src/Control/Reconnect/Walk.antt =====
-- pkg/control/control_heartbeat.go, `reconnectChain`: what the walk along the old chain tells each
-- node that is alive.
use text.Mathlib.TextEquality.{eq_iff}
use razpravljalnica.Base.{
  nat_eq, string_eq, Bool, Bool-cases, List, Option, String, [], arith, false, if◌then◌else◌, inl,
  inr, none, refl, some, true, ◌&&◌, ◌==◌, ◌∷◌, ◌≡◌, ◌≢◌, ◌∙◌, ap,
}
use razpravljalnica.Control.Nodes.{is_in}
use razpravljalnica.Control.Heartbeat.{Reconnect, link, walk, reconnect_neighbors}
use razpravljalnica.Control.Chain.{Distinct}
use razpravljalnica.Control.Reconnect.{keep, first_of, succ_in, calls, told, settled}

told-link :
    (k p : String) (q : Option String) (rs : List Reconnect)
    → told k (calls (link (some p) q ∷ rs))
      ≡ (if p == k then q ∷ told k (calls rs) else told k (calls rs))
unfolding reconnect_neighbors
told-link k p none rs = refl
told-link k p (some q) rs = refl

-- The ways in which a step of the walk goes.
module _ (alive : String → Bool) (id : String) (ids : List String) where
  pub walk-dead :
      (last : Option String) (gap : Bool)
      → alive id ≡ false
      → walk alive last gap (id ∷ ids) ≡ walk alive last true ids
  unfolding walk
  walk-dead last gap dead = rw (walk, dead) refl

  pub walk-first :
      (gap : Bool) → alive id ≡ true → walk alive none gap (id ∷ ids) ≡ walk alive (some id) gap ids
  unfolding walk
  walk-first true lives = rw (walk, lives) refl
  walk-first false lives = rw (walk, lives) refl

  pub walk-near :
      (l : String)
      → alive id ≡ true
      → walk alive (some l) false (id ∷ ids) ≡ walk alive (some id) false ids
  unfolding walk
  walk-near l lives = rw (walk, lives) refl

  pub walk-across :
      (l : String)
      → alive id ≡ true
      → walk alive (some l) true (id ∷ ids)
        ≡ link (some l) (some id) ∷ walk alive (some id) false ids
  unfolding walk
  walk-across l lives = rw (walk, lives) refl

-- The gap that is left after a node that is alive: it is closed, but before the first such node.
abbrev passes : Option String → Bool → Bool
passes none gap = gap
passes (some l) gap = false

told-walk_step :
    (alive : String → Bool) (k : String) (last : Option String) (gap : Bool) (id : String)
    (ids : List String)
    → last ≢ some k
    → alive id ≡ true
    → told k (calls (walk alive last gap (id ∷ ids)))
      ≡ told k (calls (walk alive (some id) (passes last gap) ids))
told-walk_step alive k none gap id ids other lives = rw (walk-first alive id ids gap lives) refl
told-walk_step alive k (some l) false id ids other lives = rw (walk-near alive id ids l lives) refl
told-walk_step alive k (some l) true id ids other lives =
    rw (walk-across alive id ids l lives)
      (ground (arith, told-link k l (some id) (walk alive (some id) false ids), eq_iff l k))

-- A node that the walk has not come to is told nothing.
told-walk_others :
    (alive : String → Bool) (k : String) (last : Option String) (gap : Bool) (ids : List String)
    → last ≢ some k
    → is_in k ids ≡ false
    → told k (calls (walk alive last gap ids)) ≡ []
unfolding walk
told-walk_others alive k none true [] other out = refl
told-walk_others alive k none false [] other out = refl
told-walk_others alive k (some l) true [] other out =
    ground (arith, told-link k l none [], eq_iff l k)
told-walk_others alive k (some l) false [] other out = refl
told-walk_others alive k last gap (id ∷ ids) other out = elim (Bool-cases (alive id)) [
  | inr dead ↦
      rw (walk-dead alive id ids last gap dead)
        (told-walk_others alive k last true ids other (ground arith))
  | inl lives ↦
      told-walk_step alive k last gap id ids other lives
      ∙ told-walk_others alive k (some id) (passes last gap) ids (ground (arith, eq_iff id k))
          (ground arith)
]

-- Across a gap, the last node that is alive is told of the next one, once.
told-walk_across :
    (alive : String → Bool) (l : String) (ids : List String)
    → is_in l ids ≡ false
    → told l (calls (walk alive (some l) true ids)) ≡ first_of (keep alive ids) ∷ []
unfolding walk
told-walk_across alive l [] out = ground (arith, told-link l l none [], eq_iff l l)
told-walk_across alive l (id ∷ ids) out = elim (Bool-cases (alive id)) [
  | inl lives ↦
      rw (walk-across alive id ids l lives, lives)
        (ground (
          arith,
          told-link l l (some id) (walk alive (some id) false ids),
          eq_iff l l,
          eq_iff id l,
          told-walk_others alive l (some id) false ids,
        ))
  | inr dead ↦
      rw (walk-dead alive id ids (some l) true dead, dead)
        (told-walk_across alive l ids (ground arith))
]

told-walk_next :
    (alive : String → Bool) (l : String) (ids : List String)
    → is_in l ids ≡ false
    → settled (told l (calls (walk alive (some l) false ids))) (first_of ids)
      ≡ some (first_of (keep alive ids))
unfolding walk
told-walk_next alive l [] out = refl
told-walk_next alive l (id ∷ ids) out = elim (Bool-cases (alive id)) [
  | inl lives ↦
      let nothing : told l (calls (walk alive (some id) false ids)) ≡ [] =
        told-walk_others alive l (some id) false ids (ground (arith, eq_iff id l)) (ground arith) in
      rw (walk-near alive id ids l lives, lives, nothing) refl
  | inr dead ↦
      rw
        (
          walk-dead alive id ids (some l) false dead,
          dead,
          told-walk_across alive l ids (ground arith),
        )
        refl
]

told-walk_self :
    (alive : String → Bool) (l : String) (gap : Bool) (ids : List String)
    → is_in l ids ≡ false
    → settled (told l (calls (walk alive (some l) gap ids))) (first_of ids)
      ≡ some (first_of (keep alive ids))
told-walk_self alive l false ids out = told-walk_next alive l ids out
told-walk_self alive l true ids out = rw (told-walk_across alive l ids out) refl

pub is_in-keep :
    (alive : String → Bool) (k : String) (ids : List String)
    → is_in k (keep alive ids) ≡ is_in k ids && alive k
is_in-keep alive k [] = refl
is_in-keep alive k (id ∷ ids) = elim (Bool-cases (id == k)) [
  | inl own ↦
      let same : id ≡ k = ground (arith, eq_iff id k) in
      ground (arith, is_in-keep alive k ids, ap alive same)
  | inr other ↦ ground (arith, is_in-keep alive k ids)
]

-- Each node that is alive settles on its successor among those that are.
pub settled-walk :
    (alive : String → Bool) (k : String) (last : Option String) (gap : Bool) (ids : List String)
    → last ≢ some k
    → Distinct ids
    → is_in k (keep alive ids) ≡ true
    → settled (told k (calls (walk alive last gap ids))) (succ_in k ids)
      ≡ some (succ_in k (keep alive ids))
settled-walk alive k last gap [] other d there = cc
settled-walk alive k last gap (id ∷ ids) other d there = elim (Bool-cases (alive id)) [
  | inr dead ↦
      let there_later : is_in k (keep alive ids) ≡ true = ground arith in
      let apart : (id == k) ≡ false = ground (arith, is_in-keep alive k ids, eq_iff id k) in
      rw (walk-dead alive id ids last gap dead, dead, apart)
        (settled-walk alive k last true ids other d.1 there_later)
  | inl lives ↦ elim (Bool-cases (id == k)) [
    | inl own ↦
        let same : id ≡ k = ground (arith, eq_iff id k) in
        let out : is_in k ids ≡ false = ground arith in
        rw (told-walk_step alive k last gap id ids other lives, lives, own, same)
          (told-walk_self alive k (passes last gap) ids out)
    | inr apart ↦
        let there_later : is_in k (keep alive ids) ≡ true = ground arith in
        rw (told-walk_step alive k last gap id ids other lives, lives, apart)
          (settled-walk alive k (some id) (passes last gap) ids (ground (arith, eq_iff id k)) d.1
            there_later)
  ]
]
