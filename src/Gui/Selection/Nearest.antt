-- ===== src/Gui/Selection/Nearest.antt =====
-- pkg/client/gui/gui_handlers_messages.go, `selectNearestMessage`: which message is selected after a
-- deletion.
use razpravljalnica.Base.{
  nat_eq, ℕ, List, Option, [], arith, none, some, suc, ◌∷◌, ◌≡◌, refl, length, get_elem?, ◌+◌, ◌-◌,
  false, get_elem?-of_lt, ◌++◌, take, drop, ap, ==-self,
}
use razpravljalnica.Int64.{Int64}
use razpravljalnica.Dict.{Dict, lookup, contains}
use razpravljalnica.Storage.Types.{Message}
use razpravljalnica.Gui.{GuiClient}
use razpravljalnica.Gui.Selection.{
  Highlight, cleared, region, index_from, first_valid, last_valid, select_nearest_message,
}
use razpravljalnica.Gui.Selection.Moves.{visible}

-- The first message that is there behind a deleted one, or else the last one before it
abbrev pub nearest : Dict Int64 Message → List Int64 → List Int64 → Highlight
nearest messages before after = elim (get_elem? (visible messages after) 0) [
  | some next ↦ region next
  | none ↦ elim (get_elem? (visible messages before) (length (visible messages before) - 1)) [
    | some previous ↦ region previous
    | none ↦ cleared
  ]
]

first_valid_lem :
    (messages : Dict Int64 Message) (xs : List Int64)
    → first_valid messages xs ≡ get_elem? (visible messages xs) 0
first_valid_lem messages [] = refl
first_valid_lem messages (x ∷ xs) = ground (arith, first_valid_lem messages xs)

get_elem?-cons_last :
    (x : Int64) (ys : List Int64)
    → get_elem? (x ∷ ys) (length (x ∷ ys) - 1)
      ≡ elim (get_elem? ys (length ys - 1)) [ some y ↦ some y | none ↦ some x ]
get_elem?-cons_last x [] = refl
get_elem?-cons_last x (y ∷ ys) = ground (arith, get_elem?-of_lt (y ∷ ys) (length ys))

last_valid_lem :
    (messages : Dict Int64 Message) (xs : List Int64)
    → last_valid messages xs ≡ get_elem? (visible messages xs) (length (visible messages xs) - 1)
last_valid_lem messages [] = refl
last_valid_lem messages (x ∷ xs) =
    ground (arith, last_valid_lem messages xs, get_elem?-cons_last x (visible messages xs))

index_from-append :
    (i : ℕ) (id : Int64) (before after : List Int64)
    → index_from i id before ≡ none
    → index_from i id (before ++ id ∷ after) ≡ some (i + length before)
unfolding index_from
index_from-append i id [] after h = ground (arith, ==-self id)
index_from-append i id (x ∷ before) after h =
    ground (arith, index_from-append (suc i) id before after)

drop-append : (before rest : List Int64) → drop (length before) (before ++ rest) ≡ rest
drop-append [] rest = refl
drop-append (x ∷ before) rest = drop-append before rest

take-append : (before rest : List Int64) → take (length before) (before ++ rest) ≡ before
take-append [] rest = refl
take-append (x ∷ before) rest = ap (λ xs. x ∷ xs) (take-append before rest)

not_empty :
    (id : Int64) (before after : List Int64)
    → (x : Int64) × (xs : List Int64) × (before ++ id ∷ after ≡ x ∷ xs)
not_empty id [] after = (id, after, refl)
not_empty id (x ∷ before) after = (x, before ++ id ∷ after, refl)

-- After the deletion of a message whose id stands in the order of its topic, the first message
-- that is there behind the first place of that id is selected, or else the last one that is there
-- before it; if there is none, nothing is highlighted.
pub select_nearest_message_lem :
    (topic_id deleted : Int64) (highlighted : Option Int64) (gc : GuiClient)
    (messages : Dict Int64 Message) (before after : List Int64)
    → lookup topic_id gc.message_cache
      ≡ some (record { messages = messages; order = before ++ deleted ∷ after })
    → index_from 0 deleted before ≡ none
    → contains deleted messages ≡ false
    → select_nearest_message topic_id deleted highlighted gc ≡ nearest messages before after
unfolding select_nearest_message
select_nearest_message_lem topic_id deleted highlighted gc messages before after found first gone =
    let (x, xs, shape) = not_empty deleted before after in
    let place : index_from 0 deleted (before ++ deleted ∷ after) ≡ some (length before) =
      ground (arith, index_from-append 0 deleted before after first) in
    ground (
      arith,
      place,
      shape,
      drop-append before (deleted ∷ after),
      take-append before (deleted ∷ after),
      first_valid_lem messages after,
      last_valid_lem messages before,
    )
