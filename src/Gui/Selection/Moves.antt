-- ===== src/Gui/Selection/Moves.antt =====
-- pkg/client/gui/gui_handlers_messages.go: the keys move over the messages that are shown, one at a
-- time, though the code moves over indices of the order, of which some have no message.
use razpravljalnica.Base.{
  nat_eq, ℕ, List, Option, [], arith, if◌then◌else◌, none, some, zero, suc, ◌∷◌, ◌≡◌, ◌⊎◌, inl, inr,
  refl, length, get_elem?, ◌+◌, ◌-◌, ◌<◌, ◌≤◌, ltb, true, false, ==-self, ==-ne, Bool-cases,
  Option-cases,
}
use razpravljalnica.Int64.{Int64, half, minus_one}
use razpravljalnica.Dict.{Dict, lookup, contains}
use razpravljalnica.Storage.Types.{Message}
use razpravljalnica.Gui.{MessageCacheEntry, GuiClient}
use razpravljalnica.Gui.Selection.{
  Highlight, untouched, region, index_from, valid_indices, next_valid_pos, navigate_messages,
}

-- The ids of the messages that are there, in their order
abbrev pub visible : Dict Int64 Message → List Int64 → List Int64
visible messages [] = []
visible messages (x ∷ xs) =
    if contains x messages then x ∷ visible messages xs else visible messages xs

-- The message at a place among those that are there
abbrev pub shown : List Int64 → ℕ → Highlight
shown ids p = elim (get_elem? ids p) [ none ↦ untouched | some id ↦ region id ]

index_from-le : (i : ℕ) (id : Int64) (xs : List Int64) (j : ℕ) → index_from i id xs ≡ some j → i ≤ j
unfolding index_from
index_from-le i id [] j h = cc
index_from-le i id (x ∷ xs) j h = ground (arith, index_from-le (suc i) id xs j)

index_from-lt :
    (i : ℕ) (id : Int64) (xs : List Int64) (j : ℕ) → index_from i id xs ≡ some j → j < i + length xs
unfolding index_from
index_from-lt i id [] j h = cc
index_from-lt i id (x ∷ xs) j h = ground (arith, index_from-lt (suc i) id xs j)

-- Indices from `i` on do not have an index below `i`.
valid_indices-above :
    (c i j : ℕ) (messages : Dict Int64 Message) (xs : List Int64)
    → j < i
    → index_from c j (valid_indices i messages xs) ≡ none
unfolding index_from valid_indices
valid_indices-above c i j messages [] h = refl
valid_indices-above c i j messages (x ∷ xs) h = ground (
  arith,
  ==-ne i j,
  valid_indices-above (suc c) (suc i) j messages xs,
  valid_indices-above c (suc i) j messages xs,
)

visible-absent :
    (c : ℕ) (id : Int64) (messages : Dict Int64 Message) (xs : List Int64)
    → contains id messages ≡ false
    → index_from c id (visible messages xs) ≡ none
unfolding index_from
visible-absent c id messages [] h = refl
visible-absent c id messages (x ∷ xs) h =
    ground (arith, visible-absent (suc c) id messages xs h, visible-absent c id messages xs h)

-- A place of an id in the order, and the place of that among the valid indices
abbrev place_of : ℕ → ℕ → Int64 → Dict Int64 Message → List Int64 → Option ℕ
place_of i c id messages xs = elim (index_from i id xs) [
  | none ↦ none
  | some j ↦ index_from c j (valid_indices i messages xs)
]

place_of_lem :
    (i c : ℕ) (id : Int64) (messages : Dict Int64 Message) (xs : List Int64)
    → place_of i c id messages xs ≡ index_from c id (visible messages xs)
unfolding index_from valid_indices
place_of_lem i c id messages [] = refl
place_of_lem i c id messages (x ∷ xs) = elim (Option-cases (index_from (suc i) id xs)) [
  | inl absent ↦ ground (
    arith,
    place_of_lem (suc i) (suc c) id messages xs,
    place_of_lem (suc i) c id messages xs,
    visible-absent c id messages xs,
    valid_indices-above c (suc i) i messages xs,
  )
  | inr (j, found) ↦ ground (
    arith,
    place_of_lem (suc i) (suc c) id messages xs,
    place_of_lem (suc i) c id messages xs,
    visible-absent c id messages xs,
    valid_indices-above c (suc i) i messages xs,
    index_from-le (suc i) id xs j found,
    ==-self i,
    ==-ne i j,
  )
]

length-valid_indices :
    (i : ℕ) (messages : Dict Int64 Message) (xs : List Int64)
    → length (valid_indices i messages xs) ≡ length (visible messages xs)
unfolding valid_indices
length-valid_indices i messages [] = refl
length-valid_indices i messages (x ∷ xs) = ground (arith, length-valid_indices (suc i) messages xs)

-- The id at a valid index is the message at the same place.
abbrev SameAt : ℕ → ℕ → Dict Int64 Message → List Int64 → Type 0
SameAt i p messages xs =
    ((get_elem? (valid_indices i messages xs) p ≡ none)
      × (get_elem? (visible messages xs) p ≡ none))
    ⊎ ((q : ℕ) × (id : Int64) × (get_elem? (valid_indices i messages xs) p ≡ some (i + q))
        × (get_elem? xs q ≡ some id)
        × (get_elem? (visible messages xs) p ≡ some id))

valid_indices-SameAt :
    (i p : ℕ) (messages : Dict Int64 Message) (xs : List Int64) → SameAt i p messages xs
unfolding valid_indices
valid_indices-SameAt i p messages [] = inl (refl, refl)
valid_indices-SameAt i p messages (x ∷ xs) = elim (Bool-cases (contains x messages)) [
  | inr missing ↦ elim (valid_indices-SameAt (suc i) p messages xs) [
    | inl (no_index, no_id) ↦ inl (ground arith, ground arith)
    | inr (q, id, index, at, there) ↦ inr (suc q, id, ground arith, at, ground arith)
  ]
  | inl there ↦ at_place p (λ q. valid_indices-SameAt (suc i) q messages xs) there
]
  where
    at_place :
        (p : ℕ)
        → ((q : ℕ) → SameAt (suc i) q messages xs)
        → contains x messages ≡ true
        → SameAt i p messages (x ∷ xs)
    at_place zero later there = inr (zero, x, ground arith, refl, ground arith)
    at_place (suc p) later there = elim (later p) [
      | inl (no_index, no_id) ↦ inl (ground arith, ground arith)
      | inr (q, id, index, at, there') ↦ inr (suc q, id, ground arith, at, ground arith)
    ]

-- What the keys do, over the messages that are there.
navigates :
    (delta id : Int64) (gc : GuiClient) (entry : MessageCacheEntry)
    → lookup gc.current_topic_id gc.message_cache ≡ some entry
    → let ids = visible entry.messages entry.order in
      navigate_messages delta (some id) gc
      ≡ shown ids (next_valid_pos delta (index_from 0 id ids) (length ids))
unfolding navigate_messages
navigates delta id gc entry found =
    let ids = visible entry.messages entry.order in
    let place = place_of_lem 0 0 id entry.messages entry.order in
    let count = length-valid_indices 0 entry.messages entry.order in
    elim (valid_indices-SameAt 0 (next_valid_pos delta (index_from 0 id ids) (length ids))
      entry.messages entry.order) [
        | inl (no_index, no_id) ↦
            rw (navigate_messages, found, place, count, no_index, shown, no_id) refl
        | inr (q, other, index, at, there) ↦
            let at_index : get_elem? entry.order (0 + q) ≡ some other = ground (arith, at) in
            rw (navigate_messages, found, place, count, index, at_index, shown, there) refl
      ]

-- Where the highlighted message stands at a place among the messages of the current topic that
-- are there, fewer than 2^63, the key down highlights the message at the next place, or the same
-- one at the last place, and the key up the message at the place before, or the same one at the
-- first place.
pub navigate_messages_lem :
    (id : Int64) (gc : GuiClient) (entry : MessageCacheEntry) (p : ℕ)
    → lookup gc.current_topic_id gc.message_cache ≡ some entry
    → let ids = visible entry.messages entry.order in
      index_from 0 id ids ≡ some p
      → length ids < half
      → (navigate_messages 1 (some id) gc
          ≡ shown ids (if ltb (suc p) (length ids) then suc p else p))
        × (navigate_messages minus_one (some id) gc ≡ shown ids (p - 1))
navigate_messages_lem id gc entry p found place small =
    let inside = index_from-lt 0 id (visible entry.messages entry.order) p place in
    (
      rw (navigates 1 id gc entry found, place) (ground arith),
      rw (navigates minus_one id gc entry found, place) (ground arith),
    )
